-- ===== src/Tests.antt =====
-- Concrete inputs at which the theorems apply.
mod Nodes
mod Kv
mod Locks
mod Path
mod Token
mod Conflicts
mod Agree
mod Published
mod Open
mod Gauges
mod Rounds
mod Nearest
mod Crypto
mod Api
mod Sync
mod Tree
mod Log
mod Reach
mod Start
mod Boot
mod Plugins
mod Query
mod Replication

-- ===== src/Lib.antt =====
-- Cave is a distributed key-value store in Go. This library models its core and proves what makes
-- it correct.
--
-- The parts. An HTTP request reaches the key-value engine (kv.go), which keeps its objects in
-- nested buckets of a bbolt database and tells the other nodes of each change through the cluster
-- (cluster.go Emit); a node that gets such a message applies it to its own store (kv.go
-- handleUpdate). The token store (token.go) is replicated whole, in the same way. The keys that
-- seal secrets are in crypto.go.
--
-- The files.
--   Base        shared names, Go strings as lists of byte values (Bytes), association lists, and
--               the outcome of a Go call: a value, an error or a panic
--   Path        kv.go parsePath, api.go trimPath; Path/Laws their theorems
--   Types       types.go and kv.go: KVObject, Lock, KVUpdate, Message
--   Bolt        go.etcd.io/bbolt as an interface: its operations, its documented behaviour as
--               laws, and in Bolt/Memory an instance
--   Kv          kv.go: getBuckets, Put, PutObject, Get, GetObject, GetKeys, DeleteKey,
--               DeleteBucket, emitEvent; Kv/Locks is Lock and Unlock, Kv/Updates handleUpdate and start,
--               Kv/Tree GetTree, Kv/Open newKV, Kv/Open/Database dbOpen and dbClose, Kv/Gauges
--               doMetrics; Kv/Shape, Kv/Depth and Kv/Reach the shape of the store in all states
--               that operations lead to; Kv/View the store as a map from keys
--               to objects, Kv/View/Agree and Kv/View/Feed two replicas of it; Kv/Updates/Conflicts two nodes
--               that put one key at a time; Kv/Locks/Twice what becomes of a locked key
--   Cluster     cluster.go: the state and Emit; Cluster/Emit what it does; Cluster/Sync the handling
--               of messages, SyncRequest, RequestSharedKey and SendSharedKey; Cluster/Sync/Transfer
--               SyncHandle, Cluster/Sync/Keys SyncResponse and HandleSharedKey, Cluster/Sync/Nearest
--               whom a node asks; Cluster/Start newCluster and the loop of Start as a step relation
--   Token       token.go: Find, Validate, FindUser, Issue, Delete, HandleUpdate, emit and the
--               cleanup; Token/Rounds the rounds of Start, Token/Deletion what the other nodes
--               see of a deletion
--   Crypto      crypto.go: key generation, SealSharedKey, UnsealSharedKey, encrytJSON, decryptJSON
--   Api         api.go: the key-value routes; Api/Query multiQueryHandler;
--               Api/Routes the routes of NewAPI, routeClusterNodes and PluginHandler; Api/Server
--               Start, watch and the routes that answer with what is there; Api/Replicated a PUT at
--               one node and a GET at another
--   Log         log.go New, Start and the level functions, api.go routeLogs; Log/Ends Fatal, Panic,
--               Pretty and the middleware
--   Plugins     plugins.go pluginList and NewPlugins; Plugins/Gauges doMetrics, Plugins/Processes
--               Start and Logger
--   Gauges      the gauges of Prometheus that they set
--   Metrics     metrics.go mainMetrics
--   Boot        functions.go getConfig, bindFlags and getIP, and main.go main from newCrypto to newKV;
--               Boot/Flags the flags
--   Tests       the theorems at concrete inputs
--
-- The model. An operation that changes state is a function from the state to an outcome and the
-- new state; what it reads from outside, the clock, UUIDs, the machine id, is an argument. The
-- mutex of the token store is a flag, and a call that waits for it for ever gives `none`. All loops
-- are structural recursion; the only bound is that of enumerateBucket's nesting, which stands for
-- the stack; the depth of the store's buckets is enough. The epoch of a cluster wraps at 2 ^ 64.
-- encoding/json, the ciphers and bbolt are parameters with their documented behaviour as laws.
--
-- Not modelled: the gauges of the cluster, the tokens and the log, the text of log lines, the HTTP
-- router, TLS and TCP themselves, the web interface and the dashboard of metrics.go, which is one JSON
-- text, and interleavings of goroutines within one operation. The order of the goroutines of
-- multiQueryHandler and the order of their results are parameters.
mod Base
pub mod Path
pub mod Types
pub mod Bolt
pub mod Cluster
pub mod Gauges
pub mod Kv
pub mod Token
pub mod Crypto
pub mod Api
pub mod Log
pub mod Boot
pub mod Metrics
pub mod Plugins
mod Tests

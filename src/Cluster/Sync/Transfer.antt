-- ===== src/Cluster/Sync/Transfer.antt =====
-- cluster.go SyncHandle: the database that a neighbour sends is received and replaces the own file.
use cave.Base.{
  ℕ, Bool, true, false, Option, none, some, [], ◌++◌, Bytes, take, drop, length, ◌==◌,
  if◌then◌else◌, Err, Outcome, ret, fail, panic,
}

-- The file of the database and whether the engine has it open.
pub record Disk : Type 0 where
  pub file : Bytes
  pub is_open : Bool

-- What the calls into TLS, the network and the file system end in, in the order of the calls.
pub record Incoming : Type 0 where
  pub certificate : Outcome (Unit {0})
  pub listen : Outcome (Unit {0})
  pub accept : Outcome (Unit {0})
  pub deadline : Outcome (Unit {0})
  pub received : Outcome Bytes
  pub closed : Outcome (Unit {0})
  pub opened : Outcome (Unit {0})
  -- how much of the bytes was written, and the error if there was one
  pub copied : ℕ
  pub copy_error : Option Err
  pub flushed : Outcome (Unit {0})
  pub reopened : Outcome (Unit {0})

-- How SyncHandle ends. The deferred send on `clusterReady` is made on every one of these but
-- `crashed`, which is a panic of its goroutine.
pub data Ending : Type 0 where
  synced gave_up crashed : Ending

abbrev pub either : {A : Type 0} → Outcome A → (A → Ending × Disk) → Disk → Ending × Disk
either (ret a) f d = f a
either (fail e) f d = (gave_up, d)
either panic f d = (crashed, d)

-- dbOpen, if the engine has been started
unfoldable pub reopen : Incoming → Bool → Disk → Ending × Disk
reopen x false d = (synced, d)
reopen x true d = either x.reopened (λ _. (synced, record d { is_open = true })) d

-- io.Copy writes from the start of the file on: what the file holds past the bytes that are written
-- stays.
unfoldable pub copy_file : Incoming → Bool → Bytes → Disk → Ending × Disk
unfolding reopen
copy_file x kv_init b d =
    let written = record d { file = take x.copied b ++ drop x.copied d.file } in
    elim x.copy_error [
      | some e ↦ (gave_up, written)
      | none ↦
          either x.flushed
            (λ _. if length b == x.copied then reopen x kv_init written else (gave_up, written))
            written
    ]

-- Opening the file truncates it.
unfoldable pub replace : Incoming → Bool → Bytes → Disk → Ending × Disk
unfolding copy_file
replace x kv_init b d = either x.opened (λ _. copy_file x kv_init b (record d { file = [] })) d

unfoldable pub close_then : Incoming → Bool → Bytes → Disk → Ending × Disk
unfolding replace
close_then x false b d = replace x false b d
close_then x true b d = either x.closed (λ _. replace x true b (record d { is_open = false })) d

-- From the accepted connection on; a connection that is nil panics in `defer conn.Close()`.
unfoldable pub receive : Incoming → Bool → Disk → Ending × Disk
unfolding close_then
receive x kv_init d = elim x.accept [
  | fail e ↦ (crashed, d)
  | panic ↦ (crashed, d)
  | ret _ ↦ either x.deadline (λ _. either x.received (λ b. close_then x kv_init b d) d) d
]

-- SyncHandle: what it reports on `ready`, if it does, how it ends and the disk it leaves.
unfoldable pub sync_handle : Incoming → Bool → Disk → Option (Outcome (Unit {0})) × (Ending × Disk)
unfolding receive
sync_handle x kv_init d = elim x.certificate [
  | fail e ↦ (none, (gave_up, d))
  | panic ↦ (none, (crashed, d))
  | ret _ ↦ elim x.listen [
    | fail e ↦ (some (fail e), (gave_up, d))
    | panic ↦ (none, (crashed, d))
    | ret _ ↦ (some (ret tt), receive x kv_init d)
  ]
]

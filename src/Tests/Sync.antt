-- ===== src/Tests/Sync.antt =====
-- The theorem on SyncHandle at a concrete transfer.
use cave.Base.{true, none, [], ◌∷◌, ret}
use cave.Cluster.Sync.Transfer.{Disk, Incoming}

abbrev incoming : Incoming
incoming = record {
  certificate = ret tt;
  listen = ret tt;
  accept = ret tt;
  deadline = ret tt;
  received = ret (1 ∷ 2 ∷ []);
  closed = ret tt;
  opened = ret tt;
  copied = 2;
  copy_error = none;
  flushed = ret tt;
  reopened = ret tt;
}

abbrev before : Disk
before = record { file = 9 ∷ []; is_open = true }

abbrev after : Disk
after = record { file = 1 ∷ 2 ∷ []; is_open = true }

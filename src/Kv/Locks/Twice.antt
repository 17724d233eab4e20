-- ===== src/Kv/Locks/Twice.antt =====
-- kv.go Lock, Put and Unlock of a key that is locked.
use cave.Base.{panic, ◌≡◌, ◌++◌, [], ◌∷◌, List, Bool, Bytes, ret}
use cave.Types.{Time, Lock, KvObject, ReadsBack}
use cave.Bolt.{Bolt, IsBolt}
use cave.Kv.{put, Json, Node, get_object}
use cave.Kv.Value.{stored_object, get_object-put}
use cave.Kv.Locks.{LockInput, lock, find_lock, remove_at, unlock}
use cave.Kv.Locks.Laws.{with_lock, get_object-lock}

module _ (B : Bolt) (L : IsBolt B) (J : Json) where
  -- A Lock that succeeds on a key that a Lock has locked leaves both locks with the object, in this
  -- order, and keeps the others, whether or not the first lock has expired, if both objects survive
  -- their encoding.
  pub lock-lock :
      (key prefix : Bytes) (e f : List Bool) (i j : LockInput) (n : Node B) {l k : Lock}
      {o : KvObject}
      → get_object B J key prefix n ≡ ret o
      → ReadsBack J.objects (with_lock o l)
      → ReadsBack J.objects (with_lock (with_lock o l) k)
      → (lock B J key prefix e i n).0 ≡ ret l
      → (lock B J key prefix f j (lock B J key prefix e i n).1).0 ≡ ret k
      → get_object B J key prefix (lock B J key prefix f j (lock B J key prefix e i n).1).1
        ≡ ret (record o { locks = (o.locks ++ l ∷ []) ++ k ∷ [] })
  lock-lock key prefix e f i j n {l} {k} {o} g back back' h h' =
      get_object-lock B L J key prefix f j (lock B J key prefix e i n).1 {l = k} {o = with_lock o l}
        (get_object-lock B L J key prefix e i n {l = l} {o = o} g back h) back' h'

  -- A Put that succeeds on a key drops its locks: an Unlock of whatever lock of this key panics then,
  -- and changes nothing before, if what Put stores survives its encoding.
  pub unlock-put :
      (l : Lock) (value : Bytes) (secret : Bool) (e f : List Bool) (now : Time) (id id' : Bytes)
      (n : Node B)
      → ReadsBack J.objects (stored_object J value secret now)
      → (put B J l.key value l.prefix secret e now id n).0 ≡ ret tt
      → unlock B J l f id' (put B J l.key value l.prefix secret e now id n).1
        ≡ (panic, (put B J l.key value l.prefix secret e now id n).1)
  unfolding unlock find_lock remove_at
  unlock-put l value secret e f now id id' n back h =
      rw (get_object-put B L J l.key value l.prefix secret e now id n back h)

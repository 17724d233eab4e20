-- ===== src/Cluster/Sync/Laws.antt =====
-- What SyncHandle leaves when it has synced.
use cave.Base.{◌≡◌, refl, Bool, true, Bytes, Outcome, ret, fail, panic}
use cave.Cluster.Sync.Transfer.{Disk, Ending, synced, either}

-- What a synced disk is: the file is what was received, and a started engine has it open.
abbrev pub IsSynced : Bool → Bytes → Disk → Type 0
IsSynced kv_init b d = (d.file ≡ b) × (kv_init ≡ true → d.is_open ≡ true)

pub either-inv :
    {A : Type 0} (r : Outcome A) (f : A → Ending × Disk) (d : Disk) {e : Disk}
    → either r f d ≡ (synced, e)
    → (a : A) × (r ≡ ret a) × (f a ≡ (synced, e))
either-inv (ret a) f d h = (a, refl, h)
either-inv (fail x) f d h = absurd (cc)
either-inv panic f d h = absurd (cc)

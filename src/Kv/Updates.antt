-- ===== src/Kv/Updates.antt =====
-- kv.go handleUpdate and start: an update that another node broadcast is applied to the own store.
pub mod Laws
pub mod Conflicts
pub mod Replicates
use cave.Base.{
  Outcome, ret, fail, panic, List, false, [], ◌∷◌, Bytes, codes, eqb, if◌then◌else◌, Exec, ◌>>=◌,
  ◌>>◌, pure, lift,
}
use cave.Types.{KvUpdate, Message}
use cave.Bolt.{Bolt}
use cave.Kv.{Json, Node, put_object, delete_key, delete_bucket}
use cave.Kv.Locks.{LockInput, lock, unlock}

-- The prefix of every key that the cluster shares.
abbrev pub kv_prefix : Bytes
kv_prefix = codes "kv"

module _ (B : Bolt) (J : Json) where
  unfoldable pub lock_create : Bytes → LockInput → Exec (Node B) (Unit {0})
  lock_create key i = do lock B J key kv_prefix (false ∷ []) i; pure tt

  unfoldable pub lock_delete : Bytes → Bytes → Exec (Node B) (Unit {0})
  lock_delete payload id = do
    l ← lift (J.lock_codec.unmarshal payload)
    unlock B J l (false ∷ []) id

  -- The switch on UpdateType. `i` is what a lock operation takes from outside.
  unfoldable pub apply_update : KvUpdate → LockInput → Exec (Node B) (Unit {0})
  apply_update u i =
      if eqb u.update_type (codes "put:key")
      then put_object B J u.key u.value kv_prefix u.value.secret (false ∷ []) i.message_id
      else if eqb u.update_type (codes "delete:key")
      then delete_key B J u.key kv_prefix (false ∷ []) i.message_id
      else if eqb u.update_type (codes "delete:bucket")
      then delete_bucket B J u.key kv_prefix (false ∷ []) i.message_id
      else if eqb u.update_type (codes "lock:create")
      then lock_create u.key i
      else if eqb u.update_type (codes "lock:delete")
      then lock_delete u.value.value i.message_id
      else pure tt

  unfoldable pub handle_update : Message → LockInput → Exec (Node B) (Unit {0})
  handle_update msg i = do u ← lift (J.updates.unmarshal msg.payload); apply_update u i

  -- After one message: an error is only logged, and a panic ends the program.
  abbrev pub go_on :
      Outcome (Unit {0}) × Node B → Exec (Node B) (Unit {0}) → Outcome (Unit {0}) × Node B
  go_on (ret u, n) k = k n
  go_on (fail e, n) k = k n
  go_on (panic, n) k = (panic, n)

  -- The rounds of start on the messages of its channel, in order, until there are none.
  unfoldable pub handle_all : List (Message × LockInput) → Exec (Node B) (Unit {0})
  handle_all [] n = (ret tt, n)
  handle_all ((msg, i) ∷ ms) n = go_on (handle_update msg i n) (handle_all ms)

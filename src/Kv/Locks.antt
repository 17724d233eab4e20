-- ===== src/Kv/Locks.antt =====
-- kv.go Lock and Unlock: advisory locks in the list that every object carries.
pub mod Laws
pub mod Twice
use cave.Base.{
  ℕ, suc, ◌+◌, ◌*◌, ◌^◌, Bool, true, Option, none, some, List, [], ◌∷◌, ◌++◌, Bytes, eqb, take,
  drop, if◌then◌else◌, Outcome, ret, panic, Exec, ◌>>=◌, ◌>>◌, then_do, pure, lift,
}
use cave.Types.{Time, Lock}
use cave.Bolt.{Bolt}
use cave.Kv.{Json, Node, get_object, put_object}

-- 5 * time.Minute
abbrev pub lock_term : ℕ
lock_term = 5 * 60 * 10 ^ 9

-- What Lock takes from outside: machineid.ID() (its error is dropped), a UUID for the lock and one
-- for the message, and the two readings of the clock.
pub record LockInput : Type 0 where
  pub machine_id : Bytes
  pub lock_id : Bytes
  pub message_id : Bytes
  pub claimed : Time
  pub now : Time

-- The position of the first lock with this id; `none` is -1.
unfoldable pub find_lock : Bytes → List Lock → Option ℕ
find_lock id [] = none
find_lock id (l ∷ ls) =
    let rest = find_lock id ls in
    if eqb l.lock_id id then some 0 else elim rest [ none ↦ none | some i ↦ some (suc i) ]

-- append(locks[:index], locks[index+1:]...); locks[:-1] panics
unfoldable pub remove_at : Option ℕ → List Lock → Outcome (List Lock)
remove_at none ls = panic
remove_at (some i) ls = ret (take i ls ++ drop (suc i) ls)

unfoldable pub new_lock : Bytes → Bytes → Bytes → LockInput → Lock
new_lock key prefix addr i = record {
  key = key;
  prefix = prefix;
  lock_id = i.lock_id;
  node_id = i.machine_id;
  node_address = addr;
  claim_time = i.claimed;
  expire_time = i.now + lock_term;
}

module _ (B : Bolt) (J : Json) where
  -- The rest of Lock, with the address of the node.
  unfoldable pub lock_as : Bytes → Bytes → LockInput → Bytes → Exec (Node B) Lock
  lock_as key prefix i addr =
      let l = new_lock key prefix addr i in
      do
        obj ← λ n. (get_object B J key prefix n, n)
        put_object B J key (record obj { locks = obj.locks ++ l ∷ [] }) prefix obj.secret
            (true ∷ []) i.message_id
        pure l

  -- Lock; the flag `e` is not used, and the put broadcasts whatever it says.
  unfoldable pub lock : Bytes → Bytes → List Bool → LockInput → Exec (Node B) Lock
  lock key prefix e i n = then_do n.cluster.address (lock_as key prefix i) n

  -- Unlock; the flag `e` is not used here either.
  unfoldable pub unlock : Lock → List Bool → Bytes → Exec (Node B) (Unit {0})
  unlock l e id = do
    obj ← λ m. (get_object B J l.key l.prefix m, m)
    rest ← lift (remove_at (find_lock l.lock_id obj.locks) obj.locks)
    put_object B J l.key (record obj { locks = rest }) l.prefix obj.secret (true ∷ []) id

-- ===== src/Kv/Reach.antt =====
-- The engine as a transition system, and the shape of the store in the states that it leads to.
use cave.Base.{
  Outcome, fail, panic, Exec, [], ◌∷◌, ret, ◌≡◌, sym, subst, inl, inr, Bool, List, Bytes, lift,
  Outcome-cases, Keeps, Keeps-then_do, Keeps-bind, Keeps-if, codes, eqb,
}
use cave.Path.{parse_path}
use cave.Types.{Lock, KvObject, KvUpdate, Message}
use cave.Bolt.{Bolt, IsBolt}
use cave.Bolt.Transactions.{update-keeps}
use cave.Kv.{
  Json, Node, on_db, put_in, delete_in, delete_bucket_in, put_object, delete_key, delete_bucket,
  emit_flag, get_object,
}
use cave.Kv.Put.{put_object-db, put_object-unencoded}
use cave.Kv.Delete.{then_emit-db}
use cave.Kv.Depth.{HasRoom, put_in-HasRoom, delete_in-HasRoom, delete_bucket_in-HasRoom}
use cave.Kv.Shape.{IsTree, put_in-IsTree, delete_in-IsTree, delete_bucket_in-IsTree}
use cave.Kv.Locks.{LockInput, lock, lock_as, unlock, remove_at, find_lock}
use cave.Kv.Updates.{
  go_on, handle_all, apply_update, handle_update, lock_create, lock_delete, kv_prefix,
}

-- A property of the store that every transaction that commits keeps.
pub record IsKept (B : Bolt) (P : B.State → Type 0) : Type 0 where
  pub put_in_keeps :
      (buckets : List Bytes) (k prefix bobj : Bytes) (s : B.State) {u : Unit {0}}
      → (put_in B buckets k prefix bobj s).0 ≡ ret u
      → P s
      → P (put_in B buckets k prefix bobj s).1
  pub delete_in_keeps :
      (buckets : List Bytes) (k prefix : Bytes) (s : B.State) {u : Unit {0}}
      → (delete_in B buckets k prefix s).0 ≡ ret u
      → P s
      → P (delete_in B buckets k prefix s).1
  pub delete_bucket_in_keeps :
      (buckets : List Bytes) (k prefix : Bytes) (s : B.State) {u : Unit {0}}
      → (delete_bucket_in B buckets k prefix s).0 ≡ ret u
      → P s
      → P (delete_bucket_in B buckets k prefix s).1

module _ (B : Bolt) (L : IsBolt B) (J : Json) where
  -- One operation of a client or one message of a peer, with any arguments and any result.
  pub data Step (n : Node B) : Node B → Type 0 where
    puts :
        (key : Bytes) (o : KvObject) (prefix : Bytes) (secret : Bool) (e : List Bool) (id : Bytes)
        → Step n (put_object B J key o prefix secret e id n).1
    deletes :
        (key prefix : Bytes) (e : List Bool) (id : Bytes)
        → Step n (delete_key B J key prefix e id n).1
    deletes_bucket :
        (key prefix : Bytes) (e : List Bool) (id : Bytes)
        → Step n (delete_bucket B J key prefix e id n).1
    locks :
        (key prefix : Bytes) (e : List Bool) (i : LockInput) → Step n (lock B J key prefix e i n).1
    unlocks : (l : Lock) (e : List Bool) (id : Bytes) → Step n (unlock B J l e id n).1
    hears : (m : Message) (i : LockInput) → Step n (handle_update B J m i n).1

  pub data Reach (n : Node B) : Node B → Type 0 where
    here : Reach n n
    next : {m k : Node B} → Reach n m → Step m k → Reach n k

module _ (B : Bolt) (L : IsBolt B) (J : Json) where
  go_on-Reach :
      {n : Node B} (r : Outcome (Unit {0}) × Node B) (k : Exec (Node B) (Unit {0}))
      → Reach B L J n r.1
      → ((m : Node B) → Reach B L J n m → Reach B L J n (k m).1)
      → Reach B L J n (go_on B J r k).1
  go_on-Reach (ret u, m) k done on = on m done
  go_on-Reach (fail e, m) k done on = on m done
  go_on-Reach (panic, m) k done on = done

  -- The loop of start leads to a state that is reached.
  pub handle_all-Reach :
      (ms : List (Message × LockInput)) {n : Node B} (m : Node B)
      → Reach B L J n m
      → Reach B L J n (handle_all B J ms m).1
  unfolding handle_all
  handle_all-Reach [] m reach = reach
  handle_all-Reach ((msg, i) ∷ ms) m reach =
      go_on-Reach (handle_update B J msg i m) (handle_all B J ms) (next reach (hears msg i))
        (λ k. handle_all-Reach ms k)

module _ (B : Bolt) (L : IsBolt B) (J : Json) (P : B.State → Type 0) (kept : IsKept B P) where
  abbrev Good : Node B → Type 0
  Good n = P n.db

  put_object-Keeps :
      (key : Bytes) (o : KvObject) (prefix : Bytes) (secret : Bool) (e : List Bool) (id : Bytes)
      → Keeps Good (put_object B J key o prefix secret e id)
  put_object-Keeps key o prefix secret e id n h = elim (Outcome-cases (J.objects.marshal o)) [
    | inl (b, m) ↦ subst P (sym (put_object-db B L J key o prefix secret e id n m)) (
        update-keeps B L P (put_in B (parse_path key).0 (parse_path key).1 prefix b) n.db h
          (λ u d. kept.put_in_keeps (parse_path key).0 (parse_path key).1 prefix b n.db d h))
    | inr (inl (x, m)) ↦
        subst Good (sym (put_object-unencoded B L J key o prefix secret e id n (λ b z. cc))) h
    | inr (inr m) ↦
        subst Good (sym (put_object-unencoded B L J key o prefix secret e id n (λ b z. cc))) h
  ]

  delete_key-Keeps :
      (key prefix : Bytes) (e : List Bool) (id : Bytes)
      → Keeps Good (delete_key B J key prefix e id)
  delete_key-Keeps key prefix e id n h =
      let body = delete_in B (parse_path key).0 (parse_path key).1 prefix in
      unfold delete_key in
      subst P
        (sym (
          then_emit-db B L J (emit_flag e) (codes "delete:key") key id (on_db B (B.update body)) n))
        (update-keeps B L P body n.db h
          (λ u d. kept.delete_in_keeps (parse_path key).0 (parse_path key).1 prefix n.db d h))

  delete_bucket-Keeps :
      (key prefix : Bytes) (e : List Bool) (id : Bytes)
      → Keeps Good (delete_bucket B J key prefix e id)
  delete_bucket-Keeps key prefix e id n h =
      let body = delete_bucket_in B (parse_path key).0 (parse_path key).1 prefix in
      unfold delete_bucket in
      subst P
        (sym (
          then_emit-db B L J (emit_flag e) (codes "delete:bucket") key id (on_db B (B.update body))
            n))
        (update-keeps B L P body n.db h (λ u d.
          kept.delete_bucket_in_keeps (parse_path key).0 (parse_path key).1 prefix n.db d h))

  lock-Keeps :
      (key prefix : Bytes) (e : List Bool) (i : LockInput) → Keeps Good (lock B J key prefix e i)
  unfolding lock lock_as
  lock-Keeps key prefix e i n h =
      Keeps-then_do Good n.cluster.address (lock_as B J key prefix i)
        (λ addr.
          Keeps-bind Good (λ m. (get_object B J key prefix m, m)) _ (λ m k. k)
            (λ obj.
              Keeps-bind Good _ _ (put_object-Keeps key _ prefix obj.secret _ i.message_id)
                (λ u m k. k)))
        n h

  unlock-Keeps : (l : Lock) (e : List Bool) (id : Bytes) → Keeps Good (unlock B J l e id)
  unfolding unlock
  unlock-Keeps l e id =
      Keeps-bind Good (λ m. (get_object B J l.key l.prefix m, m)) _ (λ m k. k)
        (λ obj.
          Keeps-bind Good (lift (remove_at (find_lock l.lock_id obj.locks) obj.locks)) _ (λ m k. k)
            (λ rest. put_object-Keeps l.key _ l.prefix obj.secret _ id))

  apply_update-Keeps : (u : KvUpdate) (i : LockInput) → Keeps Good (apply_update B J u i)
  unfolding apply_update lock_create lock_delete
  apply_update-Keeps u i =
      Keeps-if Good (eqb u.update_type (codes "put:key")) _ _
        (put_object-Keeps u.key u.value kv_prefix u.value.secret _ i.message_id)
        (Keeps-if Good (eqb u.update_type (codes "delete:key")) _ _
          (delete_key-Keeps u.key kv_prefix _ i.message_id)
          (Keeps-if Good (eqb u.update_type (codes "delete:bucket")) _ _
            (delete_bucket-Keeps u.key kv_prefix _ i.message_id)
            (Keeps-if Good (eqb u.update_type (codes "lock:create")) _ _
              (Keeps-bind Good _ _ (lock-Keeps u.key kv_prefix _ i) (λ l m k. k))
              (Keeps-if Good (eqb u.update_type (codes "lock:delete")) _ _
                (Keeps-bind Good (lift (J.lock_codec.unmarshal u.value.value)) _ (λ m k. k)
                  (λ l. unlock-Keeps l _ i.message_id))
                (λ m k. k)))))

  handle_update-Keeps : (m : Message) (i : LockInput) → Keeps Good (handle_update B J m i)
  unfolding handle_update
  handle_update-Keeps m i =
      Keeps-bind Good (lift (J.updates.unmarshal m.payload)) _ (λ n k. k)
        (λ u. apply_update-Keeps u i)

  Step-Keeps : {n m : Node B} → Step B L J n m → P n.db → P m.db
  Step-Keeps {n} (puts key o prefix secret e id) = put_object-Keeps key o prefix secret e id n
  Step-Keeps {n} (deletes key prefix e id) = delete_key-Keeps key prefix e id n
  Step-Keeps {n} (deletes_bucket key prefix e id) = delete_bucket-Keeps key prefix e id n
  Step-Keeps {n} (locks key prefix e i) = lock-Keeps key prefix e i n
  Step-Keeps {n} (unlocks l e id) = unlock-Keeps l e id n
  Step-Keeps {n} (hears m i) = handle_update-Keeps m i n

  -- What every transaction keeps holds in every state that operations and messages lead to.
  Reach-Keeps : {n m : Node B} → P n.db → Reach B L J n m → P m.db
  Reach-Keeps h here = h
  Reach-Keeps h (next r s) = Step-Keeps s (Reach-Keeps h r)

module _ (B : Bolt) (L : IsBolt B) (J : Json) where
  abbrev pub IsShaped : Node B → Type 0
  IsShaped n = IsTree B L n.db

  IsTree-IsKept : IsKept B (IsTree B L)
  IsTree-IsKept = record {
    put_in_keeps = put_in-IsTree B L;
    delete_in_keeps = delete_in-IsTree B L;
    delete_bucket_in_keeps = delete_bucket_in-IsTree B L;
  }

  pub Step-IsShaped : {n m : Node B} → Step B L J n m → IsShaped n → IsShaped m
  Step-IsShaped = Step-Keeps B L J (IsTree B L) IsTree-IsKept

  -- In every state that operations and messages lead to, in any order and with any results, whatever
  -- a bucket holds lies in a bucket that is there, if that was so at the start.
  pub Reach-IsShaped : {n m : Node B} → IsShaped n → Reach B L J n m → IsShaped m
  Reach-IsShaped = Reach-Keeps B L J (IsTree B L) IsTree-IsKept

  HasRoom-IsKept : (root : Bytes) → IsKept B (HasRoom B L root)
  HasRoom-IsKept root = record {
    put_in_keeps = put_in-HasRoom B L root;
    delete_in_keeps = delete_in-HasRoom B L root;
    delete_bucket_in_keeps = delete_bucket_in-HasRoom B L root;
  }

  -- The same for a bound of the nesting, which depends on the state.
  pub Reach-HasRoom :
      (root : Bytes) {n m : Node B}
      → HasRoom B L root n.db
      → Reach B L J n m
      → HasRoom B L root m.db
  Reach-HasRoom root = Reach-Keeps B L J (HasRoom B L root) (HasRoom-IsKept root)

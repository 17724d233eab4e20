-- ===== src/Kv/Delete.antt =====
-- DeleteKey and DeleteBucket as a caller sees them.
use cave.Base.{
  ◌≡◌, ◌≢◌, ◌∙◌, inl, inr, Bool, true, false, List, [], ◌∷◌, Bytes, arith, Err, ret, fail, panic,
  Exec, Outcome-cases, codes,
}
use cave.Path.{parse_path, has_suffix, slash}
use cave.Path.Laws.{parse_path-has_suffix}
use cave.Types.{KvObject, zero_object}
use cave.Bolt.{Bolt, IsBolt}
use cave.Bolt.Transactions.{update-ret}
use cave.Kv.{
  Json, Node, delete_in, get_in, get_object, delete_key, delete_bucket, then_emit, emit_flag,
}
use cave.Kv.Walk.{IsChain-grows}
use cave.Kv.PutIn.{get_in_stored}
use cave.Kv.DeleteIn.{DeleteDone, delete_in_lem, get_in_absent, delete_bucket_in_nil}
use cave.Kv.Put.{emit_event-db}
use cave.Kv.Frame.{place-ne, get_in-inv, get_object-inv}

module _ (B : Bolt) (L : IsBolt B) (J : Json) where
  -- Without a broadcast the result is that of the transaction.
  delete_key-done :
      (key prefix id : Bytes) (n : Node B) {u : Unit {0}}
      → (delete_key B J key prefix (false ∷ []) id n).0 ≡ ret u
      → DeleteDone B L
          (parse_path key).0
          (parse_path key).1
          prefix
          n.db
          (delete_key B J key prefix (false ∷ []) id n).1.db
  delete_key-done key prefix id n {u} h =
      let body = delete_in B (parse_path key).0 (parse_path key).1 prefix in
      elim (Outcome-cases (B.update body n.db).0) [
        | inl (u', c) ↦
            let (done, commit) = update-ret B L body n.db c in
            let k : delete_key B J key prefix (false ∷ []) id n
                ≡ (ret u', record n { db = (body n.db).1 }) =
              unfold delete_key then_emit in rw (commit, then_emit) (rw commit) in
            rw k (delete_in_lem B L _ _ prefix n.db done)
        | inr (inl (x, c)) ↦
            let k : (delete_key B J key prefix (false ∷ []) id n).0 ≡ fail x =
              unfold delete_key then_emit in rw (c, then_emit) in
            absurd (cc (k, h))
        | inr (inr c) ↦
            let k : (delete_key B J key prefix (false ∷ []) id n).0 ≡ panic =
              unfold delete_key then_emit in rw (c, then_emit) in
            absurd (cc (k, h))
      ]

  -- A broadcast does not touch the store.
  pub then_emit-db :
      (emits : Bool) (t key id : Bytes) (m : Exec (Node B) (Unit {0})) (n : Node B)
      → (then_emit B J emits t key id m n).1.db ≡ (m n).1.db
  unfolding then_emit
  then_emit-db emits t key id m n = ground (arith, emit_event-db B L J t key zero_object id (m n).1)

  -- After a deletion that succeeds without a broadcast, GetObject of the key reads the empty text,
  -- which json.Unmarshal refuses.
  pub get_object-delete_key :
      (key prefix id : Bytes) (n : Node B) {u : Unit {0}} {x : Err}
      → J.objects.unmarshal [] ≡ fail x
      → (delete_key B J key prefix (false ∷ []) id n).0 ≡ ret u
      → get_object B J key prefix (delete_key B J key prefix (false ∷ []) id n).1 ≡ fail x
  get_object-delete_key key prefix id n empty h =
      let done = delete_key-done key prefix id n h in
      let t = (delete_key B J key prefix (false ∷ []) id n).1.db in
      let read : get_in B (parse_path key).0 (parse_path key).1 prefix t ≡ ret [] =
        get_in_absent B L _ _ prefix t done.root done.chain done.gone in
      unfold get_object in rw (L.view_lem, read, empty)

  -- A deletion that succeeds without a broadcast changes what GetObject returns for no other key that
  -- had an object, if json.Unmarshal refuses the empty text.
  pub get_object-delete_key_ne :
      (key other prefix id : Bytes) (w : KvObject) (n : Node B) {u : Unit {0}} {x : Err}
      → J.objects.unmarshal [] ≡ fail x
      → key ≢ other
      → (delete_key B J key prefix (false ∷ []) id n).0 ≡ ret u
      → get_object B J other prefix n ≡ ret w
      → get_object B J other prefix (delete_key B J key prefix (false ∷ []) id n).1 ≡ ret w
  get_object-delete_key_ne key other prefix id w n empty ne h g =
      let (v, read, nonempty, back) = get_object-inv B L J other prefix n empty g in
      let done = delete_key-done key prefix id n h in
      let t = (delete_key B J key prefix (false ∷ []) id n).1.db in
      let (root, chain, there) = get_in-inv B L _ _ prefix v n.db read nonempty in
      let again : get_in B (parse_path other).0 (parse_path other).1 prefix t ≡ ret v =
        get_in_stored B L _ _ prefix v t done.root
          (IsChain-grows B L n.db t (prefix ∷ []) _ done.buckets_kept chain)
          (done.frame _ _ (place-ne prefix key other ne) ∙ there) in
      unfold get_object in rw (L.view_lem, again, back)

  -- DeleteBucket of a path that ends in a slash never changes the store.
  pub delete_bucket-has_suffix :
      (key prefix id : Bytes) (e : List Bool) (n : Node B)
      → has_suffix slash key ≡ true
      → (delete_bucket B J key prefix e id n).1.db ≡ n.db
  delete_bucket-has_suffix key prefix id e n h =
      unfold delete_bucket in
      then_emit-db (emit_flag e) (codes "delete:bucket") key id _ n
      ∙ rw (parse_path-has_suffix key h) (delete_bucket_in_nil B L (parse_path key).0 prefix n.db)

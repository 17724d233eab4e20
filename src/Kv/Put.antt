-- ===== src/Kv/Put.antt =====
-- PutObject and GetObject: what was put is read back, and what a put that fails has done.
use cave.Base.{
  ◌≡◌, ◌≢◌, inl, inr, Bool, List, Bytes, arith, Err, ret, fail, panic, Outcome-cases, Exec, codes,
  if◌then◌else◌, pure,
}
use cave.Path.{parse_path}
use cave.Types.{KvObject, ReadsBack}
use cave.Bolt.{Bolt, IsBolt}
use cave.Bolt.Transactions.{update-ret}
use cave.Kv.{Json, Node, put_in, get_in, emit_event, emit_flag, put_object, get_object}
use cave.Kv.PutIn.{PutDone, put_in_lem, get_in_stored}

module _ (B : Bolt) (L : IsBolt B) (J : Json) where
  open L use {slot}

  pub emit_event-db :
      (t key : Bytes) (value : KvObject) (id : Bytes) (n : Node B)
      → (emit_event B J t key value id n).1.db ≡ n.db
  unfolding emit_event
  emit_event-db t key value id n = ground arith

  pub put_object_fails :
      (key : Bytes) (o : KvObject) (prefix : Bytes) (secret : Bool) (e : List Bool) (id : Bytes)
      (n : Node B) {b : Bytes} {x : Err}
      → J.objects.marshal o ≡ ret b
      → (B.update (put_in B (parse_path key).0 (parse_path key).1 prefix b) n.db).0 ≡ fail x
      → (put_object B J key o prefix secret e id n).0 ≡ fail x
  unfolding put_object
  put_object_fails key o prefix secret e id n m c = rw (m, c)

  pub put_object_panics :
      (key : Bytes) (o : KvObject) (prefix : Bytes) (secret : Bool) (e : List Bool) (id : Bytes)
      (n : Node B) {b : Bytes}
      → J.objects.marshal o ≡ ret b
      → (B.update (put_in B (parse_path key).0 (parse_path key).1 prefix b) n.db).0 ≡ panic
      → (put_object B J key o prefix secret e id n).0 ≡ panic
  unfolding put_object
  put_object_panics key o prefix secret e id n m c = rw (m, c)

  emit_put : (key : Bytes) (o : KvObject) (e : List Bool) (id : Bytes) → Exec (Node B) (Unit {0})
  emit_put key o e id = if emit_flag e then emit_event B J (codes "put:key") key o id else pure tt

  emit_put-db :
      (key : Bytes) (o : KvObject) (e : List Bool) (id : Bytes) (n : Node B)
      → (emit_put key o e id n).1.db ≡ n.db
  unfolding emit_put
  emit_put-db key o e id n = ground (arith, emit_event-db (codes "put:key") key o id n)

  -- PutObject in two parts: the transaction, and the broadcast if it is committed.
  put_object_round :
      (key : Bytes) (o : KvObject) (prefix : Bytes) (secret : Bool) (e : List Bool) (id : Bytes)
      (n : Node B) {b : Bytes} {t : B.State}
      → J.objects.marshal o ≡ ret b
      → B.update (put_in B (parse_path key).0 (parse_path key).1 prefix b) n.db ≡ (ret tt, t)
      → put_object B J key o prefix secret e id n ≡ emit_put key o e id (record n { db = t })
  unfolding put_object emit_put
  put_object_round key o prefix secret e id n m c = rw (m, c)

  -- Whatever PutObject returns, the store is the one that its transaction leaves.
  pub put_object-db :
      (key : Bytes) (o : KvObject) (prefix : Bytes) (secret : Bool) (e : List Bool) (id : Bytes)
      (n : Node B) {b : Bytes}
      → J.objects.marshal o ≡ ret b
      → (put_object B J key o prefix secret e id n).1.db
        ≡ (B.update (put_in B (parse_path key).0 (parse_path key).1 prefix b) n.db).1
  put_object-db key o prefix secret e id n {b} m =
      let body = put_in B (parse_path key).0 (parse_path key).1 prefix b in
      elim (Outcome-cases (B.update body n.db).0) [
        | inl (u, c) ↦
            let (done, commit) = update-ret B L body n.db c in
            rw (put_object_round key o prefix secret e id n m commit, emit_put-db) (rw commit)
        | inr (inl (x, c)) ↦ unfold put_object in rw (m, c)
        | inr (inr c) ↦ unfold put_object in rw (m, c)
      ]

  -- An object that does not encode is not put.
  pub put_object-unencoded :
      (key : Bytes) (o : KvObject) (prefix : Bytes) (secret : Bool) (e : List Bool) (id : Bytes)
      (n : Node B)
      → ((b : Bytes) → J.objects.marshal o ≢ ret b)
      → (put_object B J key o prefix secret e id n).1 ≡ n
  unfolding put_object
  put_object-unencoded key o prefix secret e id n h = elim (Outcome-cases (J.objects.marshal o)) [
    | inl (b, m) ↦ absurd (h b m)
    | inr (inl (x, m)) ↦ rw m
    | inr (inr m) ↦ rw m
  ]

  -- A put that succeeds has encoded the object and committed its transaction.
  pub put_object-committed :
      (key : Bytes) (o : KvObject) (prefix : Bytes) (secret : Bool) (e : List Bool) (id : Bytes)
      (n : Node B) {u : Unit {0}}
      → (put_object B J key o prefix secret e id n).0 ≡ ret u
      → (bobj : Bytes) × (J.objects.marshal o ≡ ret bobj)
        × PutDone B L
            (parse_path key).0
            (parse_path key).1
            prefix
            bobj
            n.db
            (put_object B J key o prefix secret e id n).1.db
  put_object-committed key o prefix secret e id n {u} h =
      elim (Outcome-cases (J.objects.marshal o)) [
        | inl (b, m) ↦
            let body = put_in B (parse_path key).0 (parse_path key).1 prefix b in
            elim (Outcome-cases (B.update body n.db).0) [
              | inl (u', c) ↦
                  let (done, commit) = update-ret B L body n.db c in
                  let round = put_object_round key o prefix secret e id n m commit in
                  let same : (put_object B J key o prefix secret e id n).1.db ≡ (body n.db).1 =
                    rw round (emit_put-db key o e id (record n { db = (body n.db).1 })) in
                  (b, m, rw same (put_in_lem B L _ _ prefix b n.db done))
              | inr (inl (x, c)) ↦ absurd (cc (put_object_fails key o prefix secret e id n m c, h))
              | inr (inr c) ↦ absurd (cc (put_object_panics key o prefix secret e id n m c, h))
            ]
        | inr (inl (x, m)) ↦
            let k : put_object B J key o prefix secret e id n ≡ (fail x, n) =
              unfold put_object in rw m in
            absurd (cc (rw k at h))
        | inr (inr m) ↦
            let k : put_object B J key o prefix secret e id n ≡ (panic, n) =
              unfold put_object in rw m in
            absurd (cc (rw k at h))
      ]

  -- An object that its encoding reads back and that was put under a key without an error is what
  -- GetObject of that key then returns.
  pub get_object-put_object :
      (key : Bytes) (o : KvObject) (prefix : Bytes) (secret : Bool) (e : List Bool) (id : Bytes)
      (n : Node B) {u : Unit {0}}
      → ReadsBack J.objects o
      → (put_object B J key o prefix secret e id n).0 ≡ ret u
      → get_object B J key prefix (put_object B J key o prefix secret e id n).1 ≡ ret o
  get_object-put_object key o prefix secret e id n back h =
      let (b, m, done) = put_object-committed key o prefix secret e id n h in
      let t = (put_object B J key o prefix secret e id n).1.db in
      let read : get_in B (parse_path key).0 (parse_path key).1 prefix t ≡ ret b =
        get_in_stored B L _ _ prefix b t done.root done.chain done.value in
      unfold get_object in rw (L.view_lem, read, back b m)

-- ===== src/Kv/Updates/Laws.antt =====
-- Replication: what one node broadcasts, and what another node that handles the message does.
use cave.Base.{
  ◌≡◌, refl, inl, inr, Bool, true, false, none, [], ◌∷◌, Bytes, arith, codes, eqb, Exec, ret, panic,
  Outcome-cases,
}
use cave.Types.{Lock, KvUpdate, KvObject, Message, ReadsBack, prod}
use cave.Bolt.{Bolt, IsBolt}
use cave.Cluster.{emit}
use cave.Cluster.Emit.{Sent, emit_lem}
use cave.Kv.{Json, Node, get_object, put_object, delete_key, delete_bucket, then_emit, emit_event}
use cave.Kv.Put.{get_object-put_object}
use cave.Kv.Locks.{LockInput, remove_at, find_lock, unlock}
use cave.Kv.Updates.{kv_prefix, apply_update, handle_update, lock_delete}

-- The tests of the switch, at the type that the last case wants.
lock_delete_tests :
    (t : Bytes)
    → t ≡ codes "lock:delete"
    → (eqb t (codes "put:key") ≡ false)
      × (eqb t (codes "delete:key") ≡ false)
      × (eqb t (codes "delete:bucket") ≡ false)
      × (eqb t (codes "lock:create") ≡ false)
      × (eqb t (codes "lock:delete") ≡ true)
unfolding eqb
lock_delete_tests t e = rw e (refl, refl, refl, refl, refl)

module _ (B : Bolt) (L : IsBolt B) (J : Json) where
  apply_update-lock_delete :
      (v : KvUpdate) (i : LockInput) (n : Node B)
      → v.update_type ≡ codes "lock:delete"
      → apply_update B J v i n ≡ lock_delete B J v.value.value i.message_id n
  unfolding apply_update
  apply_update-lock_delete v i n t =
      let (a, b, c, d, e) = lock_delete_tests v.update_type t in rw (a, b, c, d, e)

  -- An event that is emitted without an error in a cluster carries the encoded update to every peer.
  pub emit_event-Sent :
      (t key : Bytes) (value : KvObject) (id : Bytes) (n : Node B) {u : Unit {0}}
      → n.cluster.mode ≡ prod
      → (emit_event B J t key value id n).0 ≡ ret u
      → (payload : Bytes) × (J.updates.marshal
            (record { update_type = t; key = key; value = value })
          ≡ ret payload)
        × Sent J.messages
            (codes "update")
            payload
            (codes "KVUpdate")
            id
            n.cluster
            (emit_event B J t key value id n).1.cluster
  unfolding emit_event
  emit_event-Sent t key value id n {u} p h =
      elim (Outcome-cases
        (J.updates.marshal (record { update_type = t; key = key; value = value }))) [
          | inl (b, m) ↦
              let k : (emit J.messages (codes "update") b (codes "KVUpdate") id n.cluster).0
                  ≡ ret u =
                rw m at h in
              elim (emit_lem J.messages (codes "update") b (codes "KVUpdate") id n.cluster) [
                | inl (same, inl in_dev) ↦ absurd (cc (p, in_dev))
                | inl (same, inr failed) ↦ absurd (failed k)
                | inr (ok, sent) ↦ (b, m, rw m sent)
              ]
          | inr (inl (y, m)) ↦ absurd (cc (rw m at h))
          | inr (inr m) ↦ absurd (cc (rw m at h))
        ]

  -- Handling an update that puts an object puts it, without a broadcast.
  pub handle_update-put_object :
      (key : Bytes) (o : KvObject) (msg : Message) (i : LockInput) (n : Node B)
      → J.updates.unmarshal msg.payload
        ≡ ret (record { update_type = codes "put:key"; key = key; value = o })
      → handle_update B J msg i n
        ≡ put_object B J key o kv_prefix o.secret (false ∷ []) i.message_id n
  unfolding handle_update apply_update eqb
  handle_update-put_object key o msg i n d = rw d

  -- Handling an update that deletes a key deletes it, without a broadcast.
  pub handle_update-delete_key :
      (key : Bytes) (o : KvObject) (msg : Message) (i : LockInput) (n : Node B)
      → J.updates.unmarshal msg.payload
        ≡ ret (record { update_type = codes "delete:key"; key = key; value = o })
      → handle_update B J msg i n ≡ delete_key B J key kv_prefix (false ∷ []) i.message_id n
  unfolding handle_update apply_update eqb
  handle_update-delete_key key o msg i n d = rw d

  -- Handling an update that puts an object, when it succeeds and the object survives its encoding,
  -- makes GetObject return that object.
  pub handle_update-put :
      (key : Bytes) (o : KvObject) (msg : Message) (i : LockInput) (n : Node B) {u : Unit {0}}
      → J.updates.unmarshal msg.payload
        ≡ ret (record { update_type = codes "put:key"; key = key; value = o })
      → ReadsBack J.objects o
      → (handle_update B J msg i n).0 ≡ ret u
      → get_object B J key kv_prefix (handle_update B J msg i n).1 ≡ ret o
  handle_update-put key o msg i n d back h =
      let k = handle_update-put_object key o msg i n d in
      rw k (
        get_object-put_object B L J key o kv_prefix o.secret (false ∷ []) i.message_id n back
          (rw k at h))

  then_emit-quiet :
      (t key id : Bytes) (m : Exec (Node B) (Unit {0})) (n : Node B)
      → (m n).1.cluster ≡ n.cluster
      → (then_emit B J false t key id m n).1.cluster ≡ n.cluster
  unfolding then_emit
  then_emit-quiet t key id m n h = ground arith

  put_object-quiet :
      (key : Bytes) (o : KvObject) (prefix : Bytes) (secret : Bool) (id : Bytes) (n : Node B)
      → (put_object B J key o prefix secret (false ∷ []) id n).1.cluster ≡ n.cluster
  unfolding put_object
  put_object-quiet key o prefix secret id n = ground arith

  delete_key-quiet :
      (key id : Bytes) (n : Node B)
      → (delete_key B J key kv_prefix (false ∷ []) id n).1.cluster ≡ n.cluster
  unfolding delete_key
  delete_key-quiet key id n = then_emit-quiet (codes "delete:key") key id _ n refl

  delete_bucket-quiet :
      (key id : Bytes) (n : Node B)
      → (delete_bucket B J key kv_prefix (false ∷ []) id n).1.cluster ≡ n.cluster
  unfolding delete_bucket
  delete_bucket-quiet key id n = then_emit-quiet (codes "delete:bucket") key id _ n refl

  apply_update-quiet :
      (v : KvUpdate) (i : LockInput) (n : Node B)
      → eqb v.update_type (codes "lock:create") ≡ false
      → eqb v.update_type (codes "lock:delete") ≡ false
      → (apply_update B J v i n).1.cluster ≡ n.cluster
  unfolding apply_update
  apply_update-quiet v i n c r = ground (
    arith,
    put_object-quiet v.key v.value kv_prefix v.value.secret i.message_id n,
    delete_key-quiet v.key i.message_id n,
    delete_bucket-quiet v.key i.message_id n,
  )

  -- Handling an update of another node sends nothing, unless it is about a lock.
  pub handle_update-quiet :
      (msg : Message) (i : LockInput) (n : Node B)
      → ((v : KvUpdate)
          → J.updates.unmarshal msg.payload ≡ ret v
          → (eqb v.update_type (codes "lock:create") ≡ false)
            × (eqb v.update_type (codes "lock:delete") ≡ false))
      → (handle_update B J msg i n).1.cluster ≡ n.cluster
  handle_update-quiet msg i n no_lock = elim (Outcome-cases (J.updates.unmarshal msg.payload)) [
    | inl (v, d) ↦
        let (c, r) = no_lock v d in unfold handle_update in rw d (apply_update-quiet v i n c r)
    | inr (inl (x, d)) ↦ unfold handle_update in rw d
    | inr (inr d) ↦ unfold handle_update in rw d
  ]

  -- A message that deletes a lock which its object does not have panics, and changes nothing before.
  pub handle_update-lock_delete :
      (msg : Message) (i : LockInput) (n : Node B) {v : KvUpdate} {o : KvObject} (l : Lock)
      → J.updates.unmarshal msg.payload ≡ ret v
      → v.update_type ≡ codes "lock:delete"
      → J.lock_codec.unmarshal v.value.value ≡ ret l
      → get_object B J l.key l.prefix n ≡ ret o
      → find_lock l.lock_id o.locks ≡ none
      → handle_update B J msg i n ≡ (panic, n)
  handle_update-lock_delete msg i n {v} l d t c g f =
      let k : apply_update B J v i n ≡ lock_delete B J v.value.value i.message_id n =
        apply_update-lock_delete v i n t in
      let gone : unlock B J l (false ∷ []) i.message_id n ≡ (panic, n) =
        unfold unlock remove_at in rw (g, f) in
      unfold handle_update in rw (d, k) (unfold lock_delete in rw (c, gone))

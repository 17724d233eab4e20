-- ===== src/Kv/Reports.antt =====
-- What DeleteKey reports of a transaction that failed.
use cave.Base.{◌≡◌, ◌≢◌, inl, inr, [], Bytes, codes, ret, panic, Outcome-cases}
use cave.Path.{parse_path}
use cave.Types.{zero_object, dev}
use cave.Bolt.{Bolt}
use cave.Cluster.Emit.{emit-dev}
use cave.Kv.{Json, Node, delete_in, delete_key, then_emit, emit_event}

module _ (B : Bolt) (J : Json) where
  emit_event-dev :
      (t key id : Bytes) (n : Node B) {b : Bytes}
      → n.cluster.mode ≡ dev
      → J.updates.marshal (record { update_type = t; key = key; value = zero_object }) ≡ ret b
      → (emit_event B J t key zero_object id n).0 ≡ ret tt
  unfolding emit_event
  emit_event-dev t key id n {b} d m =
      rw (m, emit-dev J.messages (codes "update") b (codes "KVUpdate") id n.cluster d)

  -- In dev mode DeleteKey with a broadcast reports a success whatever error its transaction had,
  -- unless that panicked, if the update encodes.
  pub delete_key-dev :
      (key prefix id : Bytes) (n : Node B) {b : Bytes}
      → n.cluster.mode ≡ dev
      → J.updates.marshal
          (record { update_type = codes "delete:key"; key = key; value = zero_object })
        ≡ ret b
      → (B.update (delete_in B (parse_path key).0 (parse_path key).1 prefix) n.db).0 ≢ panic
      → (delete_key B J key prefix [] id n).0 ≡ ret tt
  unfolding delete_key then_emit
  delete_key-dev key prefix id n {b} d m safe =
      let body = delete_in B (parse_path key).0 (parse_path key).1 prefix in
      let after : Node B = record n { db = (B.update body n.db).1 } in
      let told = emit_event-dev (codes "delete:key") key id after {b = b} d m in
      elim (Outcome-cases (B.update body n.db).0) [
        | inl (u, c) ↦ rw (c, then_emit) told
        | inr (inl (x, c)) ↦ rw (c, then_emit) told
        | inr (inr c) ↦ absurd (safe c)
      ]

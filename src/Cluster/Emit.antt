-- ===== src/Cluster/Emit.antt =====
-- What Emit does to the cluster, on every branch.
use cave.Base.{
  ap, ◌∙◌, ◌≡◌, ◌≢◌, refl, ◌⊎◌, inl, inr, ◌++◌, map, Bytes, arith, Err, ret, fail, Outcome-cases,
}
use cave.Types.{Mode, dev, prod, Message, Codec}
use cave.Cluster.{Cluster, Peer, next_epoch, emit, emit_in, broadcast}

module _ (messages : Codec Message) where
  emit_in-dev :
      (typ payload data_type id : Bytes) (c : Cluster)
      → emit_in messages dev typ payload data_type id c ≡ (ret tt, c)
  unfolding emit_in
  emit_in-dev typ payload data_type id c = refl

  -- In dev mode Emit does nothing and succeeds.
  pub emit-dev :
      (typ payload data_type id : Bytes) (c : Cluster)
      → c.mode ≡ dev
      → emit messages typ payload data_type id c ≡ (ret tt, c)
  unfolding emit
  emit-dev typ payload data_type id c d =
      ap (λ m. emit_in messages m typ payload data_type id c) d
      ∙ emit_in-dev typ payload data_type id c

  emit_in-fail :
      (m : Mode) (typ payload data_type id : Bytes) (c : Cluster) {x : Err}
      → (emit_in messages m typ payload data_type id c).0 ≡ fail x
      → (emit_in messages m typ payload data_type id c).1 ≡ c
  unfolding emit_in broadcast
  emit_in-fail dev typ payload data_type id c h = refl
  emit_in-fail prod typ payload data_type id c h = ground arith

  -- An Emit that fails has sent nothing and keeps its epoch.
  pub emit-fail :
      (typ payload data_type id : Bytes) (c : Cluster) {x : Err}
      → (emit messages typ payload data_type id c).0 ≡ fail x
      → (emit messages typ payload data_type id c).1 ≡ c
  emit-fail typ payload data_type id c h =
      unfold emit in emit_in-fail c.mode typ payload data_type id c h

  -- The message that Emit builds.
  abbrev pub emitted : Bytes → Bytes → Bytes → Bytes → Bytes → Cluster → Message
  emitted typ payload data_type id origin c = record {
    epoch = next_epoch c.epoch;
    id = id;
    typ = typ;
    origin = origin;
    payload = payload;
    data_type = data_type;
  }

  -- What Emit leaves when it has sent something: the peers' copies and the next epoch.
  abbrev pub Sent : Bytes → Bytes → Bytes → Bytes → Cluster → Cluster → Type 0
  Sent typ payload data_type id c d =
      (origin : Bytes) × (b : Bytes) × (c.mode ≡ prod)
      × (c.address ≡ ret origin)
      × (messages.marshal (emitted typ payload data_type id origin c) ≡ ret b)
      × (d ≡ record c {
        sent = c.sent ++ map (λ (p : Peer). (p.address, b)) c.peers;
        epoch = next_epoch c.epoch;
      })

  emit_in_lem :
      (m : Mode) (typ payload data_type id : Bytes) (c : Cluster)
      → c.mode ≡ m
      → let (r, d) = emit_in messages m typ payload data_type id c in
        (d ≡ c) × ((m ≡ dev) ⊎ (r ≢ ret tt)) ⊎ (r ≡ ret tt) × Sent typ payload data_type id c d
  unfolding emit_in broadcast
  emit_in_lem dev typ payload data_type id c h = inl (refl, inl refl)
  emit_in_lem prod typ payload data_type id c h = elim (Outcome-cases c.address) [
    | inl (origin, a) ↦
        elim (Outcome-cases (messages.marshal (emitted typ payload data_type id origin c))) [
          | inl (b, e) ↦ rw (a, e) (inr (refl, (origin, b, h, refl, e, refl)))
          | inr (inl (x, e)) ↦ rw (a, e) (inl (refl, inr (λ z. cc)))
          | inr (inr e) ↦ rw (a, e) (inl (refl, inr (λ z. cc)))
        ]
    | inr (inl (x, a)) ↦ rw a (inl (refl, inr (λ z. cc)))
    | inr (inr a) ↦ rw a (inl (refl, inr (λ z. cc)))
  ]

  -- On every branch Emit either leaves the cluster as it was, in dev mode or because it failed, or
  -- it succeeds and has sent the same bytes once to every peer, in the order of the peers, the
  -- encoding of a message under the next epoch, which becomes the epoch of the cluster.
  pub emit_lem :
      (typ payload data_type id : Bytes) (c : Cluster)
      → let (r, d) = emit messages typ payload data_type id c in
        (d ≡ c) × ((c.mode ≡ dev) ⊎ (r ≢ ret tt)) ⊎ (r ≡ ret tt) × Sent typ payload data_type id c d
  unfolding emit
  emit_lem typ payload data_type id c = emit_in_lem c.mode typ payload data_type id c refl

-- ===== src/Kv/Updates/Replicates.antt =====
-- From one node to another: what PutObject sends, and what a peer shows that handled it.
use cave.Base.{
  ◌≡◌, refl, sym, ap, subst, ◌∙◌, inl, inr, Bool, true, false, Option, some, List, ◌∷◌, ◌++◌, map,
  Bytes, codes, eqb, length, drop, drop-length-append, Outcome, ret, Outcome-cases,
}
use cave.Path.{parse_path}
use cave.Types.{KvObject, KvUpdate, Message, Codec, ReadsBack, prod}
use cave.Bolt.{Bolt, IsBolt}
use cave.Bolt.Transactions.{update-ret}
use cave.Cluster.{Peer, Cluster}
use cave.Cluster.Emit.{Sent, emitted}
use cave.Cluster.Sync.{Route, to_updates, route, handle}
use cave.Kv.{Json, Node, put_in, emit_event, emit_flag, put_object, get_object}
use cave.Kv.Put.{put_object-committed, put_object_fails, put_object_panics, get_object-put_object}
use cave.Kv.Locks.{LockInput}
use cave.Kv.Updates.{kv_prefix, handle_update}
use cave.Kv.Updates.Laws.{emit_event-Sent, handle_update-put}

-- The sends of one broadcast determine its bytes, if there is a peer.
sent-bytes :
    (old : List (Bytes × Bytes)) (ps : List Peer) (q : Peer) (b c : Bytes)
    → old ++ map (λ (p : Peer). (p.address, b)) (q ∷ ps)
      ≡ old ++ map (λ (p : Peer). (p.address, c)) (q ∷ ps)
    → b ≡ c
sent-bytes old ps q b c e =
    let k : ◌≡◌ {A = List (Bytes × Bytes)} ((q.address, b) ∷ map (λ (p : Peer). (p.address, b)) ps)
        ((q.address, c) ∷ map (λ (p : Peer). (p.address, c)) ps) =
      sym (drop-length-append old _) ∙ ap (drop (length old)) e ∙ drop-length-append old _ in
    cc

handle-route :
    (messages : Codec Message) (b : Bytes) (m : Message)
    → messages.unmarshal b ≡ ret m
    → m.typ ≡ codes "update"
    → handle messages false b ≡ ret (some (to_updates, m))
unfolding handle route eqb
handle-route messages b m e t = rw (e, t)

module _ (B : Bolt) (L : IsBolt B) (J : Json) where
  -- The update that PutObject broadcasts.
  abbrev pub put_update : Bytes → KvObject → KvUpdate
  put_update key o = record { update_type = codes "put:key"; key = key; value = o }

  -- The message that carries it, which Emit builds.
  abbrev pub put_message : Bytes → Bytes → Bytes → Cluster → Message
  put_message payload id origin c =
      emitted J.messages (codes "update") payload (codes "KVUpdate") id origin c

  pub put_object-Sent :
      (key : Bytes) (o : KvObject) (prefix : Bytes) (secret : Bool) (e : List Bool) (id : Bytes)
      (n : Node B) {u : Unit {0}}
      → n.cluster.mode ≡ prod
      → emit_flag e ≡ true
      → (put_object B J key o prefix secret e id n).0 ≡ ret u
      → (payload : Bytes) × (J.updates.marshal (put_update key o) ≡ ret payload)
        × Sent J.messages
            (codes "update")
            payload
            (codes "KVUpdate")
            id
            n.cluster
            (put_object B J key o prefix secret e id n).1.cluster
  put_object-Sent key o prefix secret e id n {u} p f h =
      let (b, m, _) = put_object-committed B L J key o prefix secret e id n h in
      let body = put_in B (parse_path key).0 (parse_path key).1 prefix b in
      elim (Outcome-cases (B.update body n.db).0) [
        | inl (u', c) ↦
            let (done, commit) = update-ret B L body n.db c in
            let mid : Node B = record n { db = (body n.db).1 } in
            let round : put_object B J key o prefix secret e id n
                ≡ emit_event B J (codes "put:key") key o id mid =
              unfold put_object in rw (m, commit, f) in
            let (payload, enc, sent) =
              emit_event-Sent B L J (codes "put:key") key o id mid {u = u} p (rw round at h) in
            (payload, enc, rw round sent)
        | inr (inl (x, c)) ↦ absurd (cc (put_object_fails B L J key o prefix secret e id n m c, h))
        | inr (inr c) ↦ absurd (cc (put_object_panics B L J key o prefix secret e id n m c, h))
      ]

  routed-inj :
      {r r' : Route} {m m' : Message}
      → ◌≡◌ {A = Outcome (Option (Route × Message))} (ret (some (r, m))) (ret (some (r', m')))
      → (r ≡ r') × (m ≡ m')
  routed-inj e = (cc, cc)

  -- In a cluster, when PutObject of a key has succeeded with a broadcast that sent some bytes to its
  -- peers, of which there is one at least, then a node that decodes these bytes routes the message to
  -- its engine; and once the engine has handled it without an error, its GetObject returns the same
  -- object as that of the sender, if the object, the update and the message that is sent
  -- survive their encodings.
  pub get_object-replicated :
      (key : Bytes) (o : KvObject) (secret : Bool) (e : List Bool) (id : Bytes) (n other : Node B)
      (i : LockInput) (bytes : Bytes) {u u' : Unit {0}} {q : Peer} {ps : List Peer} {r : Route}
      {msg : Message}
      → n.cluster.mode ≡ prod
      → n.cluster.peers ≡ q ∷ ps
      → emit_flag e ≡ true
      → ReadsBack J.objects o
      → ReadsBack J.updates (put_update key o)
      → ((origin payload : Bytes)
          → n.cluster.address ≡ ret origin
          → J.updates.marshal (put_update key o) ≡ ret payload
          → ReadsBack J.messages (put_message payload id origin n.cluster))
      → (put_object B J key o kv_prefix secret e id n).0 ≡ ret u
      → (put_object B J key o kv_prefix secret e id n).1.cluster.sent
        ≡ n.cluster.sent ++ map (λ (p : Peer). (p.address, bytes)) n.cluster.peers
      → handle J.messages false bytes ≡ ret (some (r, msg))
      → (handle_update B J msg i other).0 ≡ ret u'
      → (r ≡ to_updates)
        × (get_object B J key kv_prefix (handle_update B J msg i other).1 ≡ ret o)
        × (get_object B J key kv_prefix (put_object B J key o kv_prefix secret e id n).1 ≡ ret o)
  get_object-replicated key o secret e id n other i bytes {u} {u'} {q} {ps} {r} {msg} p peers f back
        ups msgs h sent heard done =
      let (payload, enc, (origin, b, _, at, made, after)) =
        put_object-Sent key o kv_prefix secret e id n {u = u} p f h in
      let em = put_message payload id origin n.cluster in
      let sends : n.cluster.sent ++ map (λ (x : Peer). (x.address, b)) n.cluster.peers
          ≡ n.cluster.sent ++ map (λ (x : Peer). (x.address, bytes)) n.cluster.peers =
        sym (ap (λ (c : Cluster). c.sent) after) ∙ sent in
      let same : b ≡ bytes = sent-bytes n.cluster.sent ps q b bytes (
        subst
          (λ xs.
            n.cluster.sent ++ map (λ (x : Peer). (x.address, b)) xs
            ≡ n.cluster.sent ++ map (λ (x : Peer). (x.address, bytes)) xs)
          peers sends) in
      let routed : handle J.messages false bytes ≡ ret (some (to_updates, em)) =
        subst (λ x. handle J.messages false x ≡ ret (some (to_updates, em))) same
          (handle-route J.messages b em (msgs origin payload at enc b made) refl) in
      let (to, msg_same) = routed-inj (sym heard ∙ routed) in
      let decoded : J.updates.unmarshal msg.payload ≡ ret (put_update key o) =
        ap (λ (x : Message). J.updates.unmarshal x.payload) msg_same ∙ ups payload enc in
      (
        to,
        handle_update-put B L J key o msg i other {u = u'} decoded back done,
        get_object-put_object B L J key o kv_prefix secret e id n back h,
      )

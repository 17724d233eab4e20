-- ===== src/Kv/Updates/Conflicts.antt =====
-- kv.go PutObject and handleUpdate, cluster.go Emit: two nodes that put the same key at the same time.
use cave.Base.{
  ◌≡◌, ◌≢◌, sym, ◌∙◌, Bool, true, false, some, List, ◌∷◌, ◌++◌, map, Bytes, ret, ret-inj,
}
use cave.Types.{KvObject, Message, prod, ReadsBack}
use cave.Bolt.{Bolt, IsBolt}
use cave.Cluster.{Peer}
use cave.Cluster.Sync.{Route, handle}
use cave.Kv.{Json, Node, emit_flag, get_object, put_object}
use cave.Kv.Locks.{LockInput}
use cave.Kv.Updates.{kv_prefix, handle_update}
use cave.Kv.Updates.Replicates.{put_update, put_message, get_object-replicated}

-- The message of the other node is the last to be handled at each of two nodes: `a` is the node that
-- puts `v`, and `b` the one that puts `w`.
module _ (B : Bolt) (L : IsBolt B) (J : Json) where
  -- Two nodes of a cluster, each with one peer at least, that put two different objects under the same
  -- key, both without an error and with a broadcast, and that then each handle the message of the
  -- other without an error, have swapped the objects: each returns the one of the other, and so they
  -- differ, whatever the objects' times of update, if the objects, the updates and the messages
  -- that are sent survive their encodings.
  pub get_object-crossed :
      (key : Bytes) (v w : KvObject) (secret secret' : Bool) (e e' : List Bool) (id id' : Bytes)
      (a b : Node B) (i j : LockInput) (bytes bytes' : Bytes) {q q' : Peer} {ps ps' : List Peer}
      {r r' : Route} {msg msg' : Message}
      → v ≢ w
      → a.cluster.mode ≡ prod
      → b.cluster.mode ≡ prod
      → a.cluster.peers ≡ q ∷ ps
      → b.cluster.peers ≡ q' ∷ ps'
      → emit_flag e ≡ true
      → emit_flag e' ≡ true
      → ReadsBack J.objects v
      → ReadsBack J.objects w
      → ReadsBack J.updates (put_update B L J key v)
      → ReadsBack J.updates (put_update B L J key w)
      → ((origin payload : Bytes)
          → a.cluster.address ≡ ret origin
          → J.updates.marshal (put_update B L J key v) ≡ ret payload
          → ReadsBack J.messages (put_message B L J payload id origin a.cluster))
      → ((origin payload : Bytes)
          → b.cluster.address ≡ ret origin
          → J.updates.marshal (put_update B L J key w) ≡ ret payload
          → ReadsBack J.messages (put_message B L J payload id' origin b.cluster))
      → (put_object B J key v kv_prefix secret e id a).0 ≡ ret tt
      → (put_object B J key w kv_prefix secret' e' id' b).0 ≡ ret tt
      → (put_object B J key v kv_prefix secret e id a).1.cluster.sent
        ≡ a.cluster.sent ++ map (λ (p : Peer). (p.address, bytes)) a.cluster.peers
      → (put_object B J key w kv_prefix secret' e' id' b).1.cluster.sent
        ≡ b.cluster.sent ++ map (λ (p : Peer). (p.address, bytes')) b.cluster.peers
      → handle J.messages false bytes ≡ ret (some (r, msg))
      → handle J.messages false bytes' ≡ ret (some (r', msg'))
      → (handle_update B J msg' i (put_object B J key v kv_prefix secret e id a).1).0 ≡ ret tt
      → (handle_update B J msg j (put_object B J key w kv_prefix secret' e' id' b).1).0 ≡ ret tt
      → let a' = (handle_update B J msg' i (put_object B J key v kv_prefix secret e id a).1).1 in
        let b' = (handle_update B J msg j (put_object B J key w kv_prefix secret' e' id' b).1).1 in
        (get_object B J key kv_prefix a' ≡ ret w)
        × (get_object B J key kv_prefix b' ≡ ret v)
        × (get_object B J key kv_prefix a' ≢ get_object B J key kv_prefix b')
  get_object-crossed key v w secret secret' e e' id id' a b i j bytes bytes' {msg} {msg'} ne pa pb
        ra rb f f' back back' ups ups' msgs msgs' ok ok' sent sent' heard heard' done done' =
      let a₁ = (put_object B J key v kv_prefix secret e id a).1 in
      let b₁ = (put_object B J key w kv_prefix secret' e' id' b).1 in
      let (_, at_a, _) =
        get_object-replicated B L J key w secret' e' id' b a₁ i bytes' {u = tt} {u' = tt} pb rb f'
          back' ups' msgs' ok' sent' heard' done in
      let (_, at_b, _) =
        get_object-replicated B L J key v secret e id a b₁ j bytes {u = tt} {u' = tt} pa ra f back
          ups msgs ok sent heard done' in
      (at_a, at_b, λ same. ne (ret-inj (sym at_b ∙ sym same ∙ at_a)))

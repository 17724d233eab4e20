-- ===== src/Api/Replicated.antt =====
-- api.go kvPutHandler at one node and kvGetHandler at another, with what lies between: PutObject, Emit,
-- the handler of messages and handleUpdate.
use cave.Base.{
  Err, fail, ℕ, ◌≡◌, ◌≢◌, refl, sym, ap, subst, ◌∙◌, Bool, false, not, some, List, [], ◌∷◌, ◌++◌,
  map, Bytes, eqb, Outcome, ret, ret-inj,
}
use cave.Types.{Message, ReadsBack, prod}
use cave.Bolt.{Bolt, IsBolt}
use cave.Crypto.{AesKey, Secret, Ciphers, IsAead, CryptoCodecs}
use cave.Crypto.Laws.{IsKey, decrypt_json-encryt_json, encryt_json-nonempty}
use cave.Cluster.{Peer}
use cave.Cluster.Sync.{Route, to_updates, handle}
use cave.Kv.{Json, Node, put, put_object, get, get_object}
use cave.Kv.Value.{stored_object}
use cave.Kv.Locks.{LockInput}
use cave.Kv.Updates.{kv_prefix, handle_update}
use cave.Kv.Updates.Replicates.{put_update, put_message, get_object-replicated}
use cave.Api.{
  Request, Response, answer, blob, kv_get_handler, kv_put_handler, put_text, value_answer,
}
use cave.Api.Laws.{
  IsKeyRequest, kv_put_handler-ok, kv_get_handler-key, plain_answer, secret_answer, put_text-secret,
}

module _ (B : Bolt) (L : IsBolt B) (J : Json) (C : Ciphers) (K : CryptoCodecs)
    (sharedkey : AesKey) where
  -- The value of an object that a node has.
  get-get_object :
      (key prefix : Bytes) (n : Node B) {v : Bytes} {s : Bool} {now : ℕ}
      → get_object B J key prefix n ≡ ret (stored_object J v s now)
      → get B J key prefix n ≡ ret v
  unfolding get
  get-get_object key prefix n h = rw h

  put-put_object :
      (key v prefix : Bytes) (s : Bool) (now : ℕ) (id : Bytes) (n : Node B)
      → put B J key v prefix s [] now id n
        ≡ put_object B J key (stored_object J v s now) prefix s [] id n
  unfolding put
  put-put_object key v prefix s now id n = refl

  -- A node `n` of a cluster that has answered a PUT with 200, and another node that has handled, without
  -- an error, the bytes that `n` sent to its peers.
  module _ (path body bytes : Bytes) (r : Request) (n other : Node B) (i : LockInput) {w : Response}
      {u : Unit {0}} {q : Peer} {ps : List Peer} {to : Route} {msg : Message}
      (kr : IsKeyRequest path r) (p : n.cluster.mode ≡ prod) (peers : n.cluster.peers ≡ q ∷ ps)
      (back : (v : Bytes) (s : Bool) → ReadsBack J.objects (stored_object J v s r.now))
      (ups : (v : Bytes) (s : Bool)
        → ReadsBack J.updates (put_update B L J path (stored_object J v s r.now)))
      (msgs : (v : Bytes) (s : Bool) (origin payload : Bytes)
        → n.cluster.address ≡ ret origin
        → J.updates.marshal (put_update B L J path (stored_object J v s r.now)) ≡ ret payload
        → ReadsBack J.messages (put_message B L J payload r.message_id origin n.cluster))
      (b : r.body ≡ ret body) (h : (kv_put_handler B J C K sharedkey r n).0 ≡ ret w)
      (ok : w.status ≡ 200)
      (sent : (kv_put_handler B J C K sharedkey r n).1.cluster.sent
        ≡ n.cluster.sent ++ map (λ (p : Peer). (p.address, bytes)) n.cluster.peers)
      (heard : handle J.messages false bytes ≡ ret (some (to, msg)))
      (done : (handle_update B J msg i other).0 ≡ ret u) where
    replicated_text :
        (buf : Bytes) × (put_text C K sharedkey r.secret body ≡ ret buf)
        × (to ≡ to_updates)
        × (get B J path kv_prefix (handle_update B J msg i other).1 ≡ ret buf)
    replicated_text =
        let (body', buf, b', text, stored, moved) =
          kv_put_handler-ok B L J C K sharedkey path r n {w = w} kr.trimmed h ok in
        let s = not (eqb r.secret []) in
        let same_put = put-put_object path buf kv_prefix s r.now r.message_id n in
        let at_put = moved ∙ ap (λ (x : Outcome (Unit {0}) × Node B). x.1) same_put in
        let (routed, read, _) =
          get_object-replicated B L J path (stored_object J buf s r.now) s [] r.message_id n other i
            bytes {u = tt} {u' = u} p peers refl (back buf s) (ups buf s) (msgs buf s)
            (ap (λ (x : Outcome (Unit {0}) × Node B). x.0) (sym same_put) ∙ stored)
            (subst
              (λ (m : Node B).
                m.cluster.sent
                ≡ n.cluster.sent ++ map (λ (p : Peer). (p.address, bytes)) n.cluster.peers)
              at_put sent)
            heard done in
        (
          buf,
          subst (λ x. put_text C K sharedkey r.secret x ≡ ret buf) (ret-inj (sym b' ∙ b)) text,
          routed,
          get-get_object path kv_prefix (handle_update B J msg i other).1 {v = buf} {s = s}
              {now = r.now} read,
        )

    -- In a cluster, when a node has answered a PUT of a value, not a secret, with 200 and has sent some
    -- bytes to its peers, of which there is one at least, then another node that gets these bytes
    -- routes them to its engine; and once the engine has handled them without an error, a GET of the
    -- key at that node answers the body of the PUT with status 200, if the body is not empty and the
    -- object that is stored, its update and the message that is sent survive their encodings.
    pub kv_get_handler-replicated :
        (depth : ℕ) (g : Request)
        → IsKeyRequest path g
        → r.secret ≡ []
        → g.secret ≡ []
        → body ≢ []
        → (to ≡ to_updates)
          × (kv_get_handler B J C K sharedkey depth g (handle_update B J msg i other).1
              ≡ ret (answer 200 (blob body)))
    kv_get_handler-replicated depth g kg sr sg full =
        let (buf, text, routed, read) = replicated_text in
        let same : body ≡ buf = ret-inj (rw sr at text) in
        (
          routed,
          kv_get_handler-key B L J C K sharedkey depth path g (handle_update B J msg i other).1 kg
                read
              ∙ rw sg (
                  subst (λ x. value_answer C K sharedkey path [] x ≡ ret (answer 200 (blob body)))
                    same (plain_answer B L J C K sharedkey path body full)),
        )

    -- In a cluster, when a node has answered a PUT that asks for a secret with 200 and has sent some
    -- bytes to its peers, of which there is one at least, then another node with the same shared key
    -- that gets these bytes routes them to its engine; and once the engine has handled them without an
    -- error, a GET of the key that asks for a secret answers there the body of the PUT, decrypted, with
    -- status 200, under a key of its cipher's nonce size, if the body, the secrets, the object that is
    -- stored, its update and the message that is sent survive their encodings and json.Unmarshal refuses
    -- the empty text as a secret.
    pub kv_get_handler-replicated_secret :
        (depth : ℕ) (g : Request) {x : Err}
        → IsAead C
        → IsKey C sharedkey
        → ReadsBack K.blobs body
        → ((s : Secret) → ReadsBack K.secrets s)
        → K.secrets.unmarshal [] ≡ fail x
        → IsKeyRequest path g
        → r.secret ≢ []
        → g.secret ≢ []
        → (to ≡ to_updates)
          × (kv_get_handler B J C K sharedkey depth g (handle_update B J msg i other).1
              ≡ ret (answer 200 (blob body)))
    kv_get_handler-replicated_secret depth g aead key bb sb empty kg sr sg =
        let (buf, text, routed, read) = replicated_text in
        let e = sym (put_text-secret B L J C K sharedkey r.secret body sr) ∙ text in
        let d = decrypt_json-encryt_json C K aead sharedkey body buf key bb sb e in
        (
          routed,
          kv_get_handler-key B L J C K sharedkey depth path g (handle_update B J msg i other).1 kg
                read
              ∙ secret_answer B L J C K sharedkey path g.secret buf body sg
                  (encryt_json-nonempty C K aead sharedkey body buf key sb empty e) d,
        )

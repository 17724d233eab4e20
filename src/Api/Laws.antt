-- ===== src/Api/Laws.antt =====
-- What the API promises of the key-value routes.
use cave.Base.{
  ℕ, ◌≡◌, ◌≢◌, refl, sym, ap, ◌∙◌, subst, Bool, true, false, not, [], ◌∷◌, Bytes, eqb, Err, ret,
  fail, Outcome-cases, inl, inr, arith, ret-inj, leb,
}
use cave.Path.{slash, has_suffix, trim_path}
use cave.Types.{ReadsBack}
use cave.Bolt.{Bolt, IsBolt}
use cave.Crypto.{AesKey, Secret, Ciphers, IsAead, CryptoCodecs, encryt_json, decrypt_json}
use cave.Crypto.Laws.{IsKey, decrypt_json-encryt_json, encryt_json-nonempty}
use cave.Kv.{Json, Node, put, get}
use cave.Kv.Value.{stored_object, get-put}
use cave.Kv.Updates.{kv_prefix}
use cave.Api.{
  Request, Response, answer, problem, blob, kv_get_handler, kv_put_handler, put_text, value_answer,
  kv_url,
}

-- A request for one key: its path goes on after the prefix, does not end in a slash, and asks for
-- no tree.
pub record IsKeyRequest (path : Bytes) (r : Request) : Type 0 where
  pub trimmed : trim_path r.path kv_url ≡ ret path
  pub no_slash : has_suffix slash path ≡ false
  pub nonempty : path ≢ []
  pub no_tree : r.tree ≡ []

pub clash : (n : ℕ) → n ≡ 200 → leb 400 n ≡ true → ⊥
clash n e h = ground arith

eqb-nonempty : (s : Bytes) → s ≢ [] → eqb s [] ≡ false
unfolding eqb
eqb-nonempty [] h = absurd (h refl)
eqb-nonempty (c ∷ s) h = refl

module _ (B : Bolt) (L : IsBolt B) (J : Json) (C : Ciphers) (K : CryptoCodecs)
    (sharedkey : AesKey) where
  -- A GET for one key answers as its value does.
  pub kv_get_handler-key :
      (depth : ℕ) (path : Bytes) (r : Request) (n : Node B) {value : Bytes}
      → IsKeyRequest path r
      → get B J path kv_prefix n ≡ ret value
      → kv_get_handler B J C K sharedkey depth r n ≡ value_answer C K sharedkey path r.secret value
  unfolding kv_get_handler eqb
  kv_get_handler-key depth path r n k h =
      rw (k.trimmed, k.no_tree, k.no_slash) (rw (eqb-nonempty path k.nonempty) (rw h))

  -- A PUT that answers 200 has put the text of the body.
  pub kv_put_handler-ok :
      (path : Bytes) (r : Request) (n : Node B) {w : Response}
      → trim_path r.path kv_url ≡ ret path
      → (kv_put_handler B J C K sharedkey r n).0 ≡ ret w
      → w.status ≡ 200
      → (body : Bytes) × (buf : Bytes) × (r.body ≡ ret body)
        × (put_text C K sharedkey r.secret body ≡ ret buf)
        × ((put B J path buf kv_prefix (not (eqb r.secret [])) [] r.now r.message_id n).0 ≡ ret tt)
        × ((kv_put_handler B J C K sharedkey r n).1
            ≡ (put B J path buf kv_prefix (not (eqb r.secret [])) [] r.now r.message_id n).1)
  unfolding kv_put_handler
  kv_put_handler-ok path r n {w} t h ok =
      let same = λ (x : Response) (k : (kv_put_handler B J C K sharedkey r n).0 ≡ ret x).
        ap (λ (y : Response). y.status) (ret-inj (sym k ∙ h)) ∙ ok in
      elim (Outcome-cases r.body) [
        | inl (body, b) ↦ elim (Outcome-cases (put_text C K sharedkey r.secret body)) [
          | inl (buf, p) ↦
              elim (Outcome-cases
                (put B J path buf kv_prefix (not (eqb r.secret [])) [] r.now r.message_id n).0) [
                  | inl (u, q) ↦ (body, buf, b, p, q, rw (t, b, p, q))
                  | inr (inl (x, q)) ↦
                      absurd (clash 500 (same (answer 500 (problem x)) (rw (t, b, p, q))) refl)
                  | inr (inr q) ↦ absurd (cc (rw (t, b, p, q) at h))
                ]
          | inr (inl (x, p)) ↦
              absurd (clash 400 (same (answer 400 (problem x)) (rw (t, b, p))) refl)
          | inr (inr p) ↦ absurd (cc (rw (t, b, p) at h))
        ]
        | inr (inl (x, b)) ↦ absurd (clash 400 (same (answer 400 (problem x)) (rw (t, b))) refl)
        | inr (inr b) ↦ absurd (cc (rw (t, b) at h))
      ]

  -- A GET of the key of a PUT that answered 200 answers as the stored text of the body does.
  stored_text :
      (depth : ℕ) (path body : Bytes) (r g : Request) (n : Node B) {w : Response}
      → IsKeyRequest path r
      → IsKeyRequest path g
      → ((v : Bytes) (s : Bool) → ReadsBack J.objects (stored_object J v s r.now))
      → r.body ≡ ret body
      → (kv_put_handler B J C K sharedkey r n).0 ≡ ret w
      → w.status ≡ 200
      → (buf : Bytes) × (put_text C K sharedkey r.secret body ≡ ret buf)
        × (kv_get_handler B J C K sharedkey depth g (kv_put_handler B J C K sharedkey r n).1
            ≡ value_answer C K sharedkey path g.secret buf)
  stored_text depth path body r g n {w} kr kg back b h ok =
      let (body', buf, b', p, done, moved) = kv_put_handler-ok path r n {w = w} kr.trimmed h ok in
      let same : body' ≡ body = ret-inj (sym b' ∙ b) in
      let read =
        get-put B L J path buf kv_prefix (not (eqb r.secret [])) [] r.now r.message_id n
          (back buf (not (eqb r.secret []))) done in
      (
        buf,
        subst (λ x. put_text C K sharedkey r.secret x ≡ ret buf) same p,
        kv_get_handler-key depth path g (kv_put_handler B J C K sharedkey r n).1 kg
            (subst (λ m. get B J path kv_prefix m ≡ ret buf) (sym moved) read),
      )

  pub plain_answer :
      (path v : Bytes) → v ≢ [] → value_answer C K sharedkey path [] v ≡ ret (answer 200 (blob v))
  plain_answer path [] h = absurd (h refl)
  plain_answer path (x ∷ v) h = refl

  pub secret_answer :
      (path q v d : Bytes)
      → q ≢ []
      → v ≢ []
      → decrypt_json C K sharedkey v ≡ ret d
      → value_answer C K sharedkey path q v ≡ ret (answer 200 (blob d))
  secret_answer path [] v d k h e = absurd (k refl)
  secret_answer path (y ∷ q) [] d k h e = absurd (h refl)
  secret_answer path (y ∷ q) (x ∷ v) d k h e = rw e

  pub put_text-secret :
      (q body : Bytes)
      → q ≢ []
      → put_text C K sharedkey q body ≡ encryt_json C K K.blobs sharedkey body
  put_text-secret [] body h = absurd (h refl)
  put_text-secret (x ∷ q) body h = refl

  -- What a PUT stored that answered 200 is what a GET of the same key then answers, with status 200,
  -- neither asking for a secret, if the body is not empty and the objects survive their encoding.
  pub kv_get_handler-kv_put_handler :
      (depth : ℕ) (path body : Bytes) (r g : Request) (n : Node B) {w : Response}
      → IsKeyRequest path r
      → IsKeyRequest path g
      → ((v : Bytes) (s : Bool) → ReadsBack J.objects (stored_object J v s r.now))
      → r.secret ≡ []
      → g.secret ≡ []
      → r.body ≡ ret body
      → body ≢ []
      → (kv_put_handler B J C K sharedkey r n).0 ≡ ret w
      → w.status ≡ 200
      → kv_get_handler B J C K sharedkey depth g (kv_put_handler B J C K sharedkey r n).1
        ≡ ret (answer 200 (blob body))
  kv_get_handler-kv_put_handler depth path body r g n {w} kr kg back sr sg b full h ok =
      let (buf, p, k) = stored_text depth path body r g n {w = w} kr kg back b h ok in
      let same : body ≡ buf = ret-inj (rw sr at p) in
      k
      ∙ rw sg (
          subst (λ x. value_answer C K sharedkey path [] x ≡ ret (answer 200 (blob body))) same
            (plain_answer path body full))

  -- The same where both ask for a secret: the body is stored encrypted and is answered decrypted,
  -- under a key of its cipher's nonce size, if the encodings read back and json.Unmarshal refuses the
  -- empty text as a secret.
  pub kv_get_handler-kv_put_handler_secret :
      (depth : ℕ) (path body : Bytes) (r g : Request) (n : Node B) {w : Response} {x : Err}
      → IsAead C
      → IsKey C sharedkey
      → ReadsBack K.blobs body
      → ((s : Secret) → ReadsBack K.secrets s)
      → K.secrets.unmarshal [] ≡ fail x
      → IsKeyRequest path r
      → IsKeyRequest path g
      → ((v : Bytes) (s : Bool) → ReadsBack J.objects (stored_object J v s r.now))
      → r.secret ≢ []
      → g.secret ≢ []
      → r.body ≡ ret body
      → (kv_put_handler B J C K sharedkey r n).0 ≡ ret w
      → w.status ≡ 200
      → kv_get_handler B J C K sharedkey depth g (kv_put_handler B J C K sharedkey r n).1
        ≡ ret (answer 200 (blob body))
  kv_get_handler-kv_put_handler_secret depth path body r g n {w} aead key bb sb empty kr kg back sr
        sg b h ok =
      let (buf, p, k) = stored_text depth path body r g n {w = w} kr kg back b h ok in
      let e = sym (put_text-secret r.secret body sr) ∙ p in
      let d = decrypt_json-encryt_json C K aead sharedkey body buf key bb sb e in
      k
      ∙ secret_answer path g.secret buf body sg
          (encryt_json-nonempty C K aead sharedkey body buf key sb empty e) d

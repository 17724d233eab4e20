-- ===== src/Api/Query/Reads.antt =====
-- What a query reads that a query stored.
use cave.Base.{
  ◌≡◌, ◌≢◌, refl, sym, ap, ◌∙◌, subst, Bool, true, false, [], ◌∷◌, Bytes, if◌then◌else◌, Err,
  Outcome, ret, fail, panic, ret-inj,
}
use cave.Types.{ReadsBack}
use cave.Bolt.{Bolt, IsBolt}
use cave.Crypto.{AesKey, Ciphers, CryptoCodecs, decrypt_json}
use cave.Kv.{Json, Node, put, get}
use cave.Kv.Updates.{kv_prefix}
use cave.Kv.Value.{stored_object, get-put}
use cave.Api.Query.{
  QueryObject, QueryCodecs, QueryInput, reported, read_value, found_value, do_get, post_text,
  do_post,
}
use cave.Api.Query.Laws.{pair-fst}

module _ (B : Bolt) (L : IsBolt B) (J : Json) (C : Ciphers) (K : CryptoCodecs) (sharedkey : AesKey)
    (Q : QueryCodecs) where
  read_value-stored :
      (g : QueryObject) (b : Bytes) (d : Outcome Bytes)
      → d ≢ panic
      → read_value B J C K sharedkey Q g b d ≡ ret (record g { value = b })
  read_value-stored g b (ret x) h = refl
  read_value-stored g b (fail e) h = refl
  read_value-stored g b panic h = absurd (h refl)

  choose-stored :
      (secret : Bool) (g : QueryObject) (b : Bytes)
      → decrypt_json C K sharedkey b ≢ panic
      → (if secret
          then read_value B J C K sharedkey Q g b (decrypt_json C K sharedkey b)
          else ret (record g { value = b }))
        ≡ ret (record g { value = b })
  choose-stored true g b h = read_value-stored g b (decrypt_json C K sharedkey b) h
  choose-stored false g b h = refl

  found_value-stored :
      (g : QueryObject) (b : Bytes)
      → b ≢ []
      → decrypt_json C K sharedkey b ≢ panic
      → found_value B J C K sharedkey Q g b ≡ ret (record g { value = b })
  found_value-stored g [] ne h = absurd (ne refl)
  found_value-stored g (x ∷ b) ne h = choose-stored g.secret g (x ∷ b) h

  put_text_of-put :
      (q : QueryObject) (i : QueryInput) (x : Outcome (Unit {0}) × Node B) {r : QueryObject}
      {n' : Node B}
      → ((e : Err) → Q.error_text e ≢ [])
      → ◌≡◌ {A = Outcome QueryObject × Node B}
          (reported B J C K sharedkey Q q x.0 (λ _. ret q), x.1)
          (ret r, n')
      → r.error ≡ []
      → (x.0 ≡ ret tt) × (x.1 ≡ n')
  put_text_of-put q i (ret u, m) ne h none =
      (refl, ap (λ (y : Outcome QueryObject × Node B). y.1) h)
  put_text_of-put q i (fail e, m) ne h none =
      let k = ap (λ (y : QueryObject). y.error) (ret-inj (pair-fst _ h)) in absurd (ne e (k ∙ none))
  put_text_of-put q i (panic, m) ne h none = absurd (cc (pair-fst _ h))

  -- A query that stored its text and reports no error is answered by a query of the same key with the
  -- text as it was stored, if this is not empty, no error prints as the empty text and the objects
  -- survive their encoding: a secret is answered encrypted, even to a query that asks for the secret,
  -- unless decrypting it panics.
  pub do_get-do_post :
      (q g : QueryObject) (i : QueryInput) (n : Node B) {r : QueryObject} {n' : Node B}
      {buf : Bytes}
      → ((v : Bytes) (s : Bool) → ReadsBack J.objects (stored_object J v s i.now))
      → ((e : Err) → Q.error_text e ≢ [])
      → post_text B J C K sharedkey Q q ≡ ret buf
      → buf ≢ []
      → decrypt_json C K sharedkey buf ≢ panic
      → g.key ≡ q.key
      → do_post B J C K sharedkey Q q i n ≡ (ret r, n')
      → r.error ≡ []
      → do_get B J C K sharedkey Q g n' ≡ ret (record g { value = buf })
  unfolding do_post do_get
  do_get-do_post q g i n {r} {n'} {buf} back ne text full ok same h none =
      let x = put B J q.key buf kv_prefix q.secret [] i.now i.message_id n in
      let h' : ◌≡◌ {A = Outcome QueryObject × Node B}
          (reported B J C K sharedkey Q q x.0 (λ _. ret q), x.1) (ret r, n') =
        rw text at h in
      let (done, moved) = put_text_of-put q i x {r = r} {n' = n'} ne h' none in
      let read : get B J q.key kv_prefix n' ≡ ret buf =
        subst (λ m. get B J q.key kv_prefix m ≡ ret buf) moved
          (get-put B L J q.key buf kv_prefix q.secret [] i.now i.message_id n (back buf q.secret)
            done) in
      let here : get B J g.key kv_prefix n' ≡ ret buf =
        subst (λ k. get B J k kv_prefix n' ≡ ret buf) (sym same) read in
      rw here (found_value-stored g buf full ok)

-- ===== src/Boot/Laws.antt =====
-- What holds of the keys when a node has come up.
use cave.Base.{
  ℕ, ◌≡◌, refl, sym, ap, subst, ◌∙◌, Bool, true, false, Option, none, some, Bytes, Err, Outcome,
  ret, fail, panic, then-ret, ret-inj,
}
use cave.Bolt.{Bolt}
use cave.Crypto.{
  AesKey, Ciphers, CryptoCodecs, Crypto, KeyFile, new_crypto, generate_shared_key, seal_shared_key,
  unseal_shared_key,
}
use cave.Kv.Open.{new_kv, state_of, create_roots}
use cave.Boot.{Random, Keys, must, pointer, sealed_keys, make_keys, settle_keys, open_engine, boot}

must-ret : {A : Type 0} (r : Outcome A) {a : A} → must r ≡ ret a → r ≡ ret a
must-ret (ret a) h = h
must-ret (fail e) h = absurd (cc)
must-ret panic h = absurd (cc)

pointer-ret : {A : Type 0} (o : Option A) {a : A} → pointer o ≡ ret a → o ≡ some a
pointer-ret none h = absurd (cc)
pointer-ret (some a) h = ap some (ret-inj h)

sealed_keys-ret :
    (c : Crypto) (r : Outcome (Unit {0}) × KeyFile) {c' : Crypto} {f : KeyFile}
    → sealed_keys c r ≡ ret (c', f)
    → (c' ≡ c) × (r.1 ≡ f)
sealed_keys-ret c (ret u, g) h = (cc, cc)
sealed_keys-ret c (fail e, g) h = absurd (cc)
sealed_keys-ret c (panic, g) h = absurd (cc)

some-inj : {A : Type 0} {a b : A} → some a ≡ some b → a ≡ b
some-inj e = cc

module _ (C : Ciphers) (K : CryptoCodecs) where
  generate-privkey :
      (pass nonce : ℕ → Outcome Bytes) (c : Crypto) {c' : Crypto}
      → generate_shared_key C K pass nonce c ≡ ret c'
      → c'.privkey ≡ c.privkey
  unfolding generate_shared_key
  generate-privkey pass nonce c h =
      let (p, _, h₁) = then-ret (pass 32) _ h in
      let (size, _, h₂) = then-ret (C.gcm p) _ h₁ in
      let (n, _, h₃) = then-ret (nonce size) _ h₂ in
      sym (ap (λ (x : Crypto). x.privkey) (ret-inj h₃))

  -- Settling the keys keeps the system key, and a key file that is there.
  settle_keys-privkey :
      (g : Bool) (random : Random) (c : Crypto) (f : KeyFile) {c' : Crypto} {f' : KeyFile}
      → settle_keys C K g random c f ≡ ret (c', f')
      → c'.privkey ≡ c.privkey
  unfolding settle_keys make_keys
  settle_keys-privkey false random c f h = sym (ap (λ (x : Keys). x.0.privkey) (ret-inj h))
  settle_keys-privkey true random c f h =
      let (d, made, h₁) =
        then-ret (must (generate_shared_key C K random.pass random.nonce c)) _ h in
      let (p, _, h₂) = then-ret (pointer d.privkey) _ h₁ in
      let (same, _) = sealed_keys-ret d _ h₂ in
      ap (λ (x : Crypto). x.privkey) same
      ∙ generate-privkey random.pass random.nonce c (must-ret _ made)

  settle_keys-file :
      (g : Bool) (random : Random) (c : Crypto) (x : Bytes) {c' : Crypto} {f' : KeyFile}
      → settle_keys C K g random c (some x) ≡ ret (c', f')
      → f' ≡ some x
  unfolding settle_keys make_keys seal_shared_key
  settle_keys-file false random c x h = sym (ap (λ (x : Keys). x.1) (ret-inj h))
  settle_keys-file true random c x h =
      let (d, _, h₁) = then-ret (must (generate_shared_key C K random.pass random.nonce c)) _ h in
      let (p, _, h₂) = then-ret (pointer d.privkey) _ h₁ in
      let (_, same) = sealed_keys-ret d (ret tt, some x) h₂ in sym same

  new_kv-key :
      (B : Bolt) (opened : Outcome B.State) (missing : Err) (p : AesKey) (f : KeyFile) {s : B.State}
      {key : Option AesKey}
      → new_kv B C K opened missing p f ≡ ret (s, key)
      → unseal_shared_key C K missing p f ≡ ret key
  unfolding new_kv
  new_kv-key B opened missing p f {key = key} h =
      let (s, _, h₁) = then-ret opened _ h in
      let (s', _, h₂) = then-ret (state_of (B.update (create_roots B C K) s)) _ h₁ in
      let (k, e, h₃) = then-ret (unseal_shared_key C K missing p f) _ h₂ in
      e ∙ ap (λ (x : B.State × Option AesKey). ret x.1) (ret-inj h₃)

  -- What a node that came up has gone through.
  boot-inv :
      (B : Bolt) (g : Bool) (machine_id : Outcome Bytes) (cluster plugins : Outcome (Unit {0}))
      (random : Random) (opened : Outcome B.State) (missing : Err) (f : KeyFile) {s : B.State}
      {key : Option AesKey} {f' : KeyFile}
      → boot C K B g machine_id cluster plugins random opened missing f ≡ ret (s, key, f')
      → (c : Crypto) × (c' : Crypto) × (p : AesKey) × (new_crypto C K machine_id ≡ ret c)
        × (settle_keys C K g random c f ≡ ret (c', f'))
        × (c.privkey ≡ some p)
        × (unseal_shared_key C K missing p f' ≡ ret key)
  unfolding boot open_engine
  boot-inv B g machine_id cluster plugins random opened missing f {key = key} {f' = f'} h =
      let (c, made, h₁) = then-ret (must (new_crypto C K machine_id)) _ h in
      let (_, _, h₁) = then-ret (must cluster) _ h₁ in
      let ((c', f₁), settled, h₂) = then-ret (settle_keys C K g random c f) _ h₁ in
      let (_, _, h₂) = then-ret (must plugins) _ h₂ in
      let (p, there, h₃) = then-ret (pointer c'.privkey) _ h₂ in
      let ((s', k), opens, h₄) = then-ret (must (new_kv B C K opened missing p f₁)) _ h₃ in
      let out = ret-inj h₄ in
      let same : f₁ ≡ f' = ap (λ (x : B.State × Option AesKey × KeyFile). x.2) out in
      let key' =
        new_kv-key B opened missing p f₁ (must-ret _ opens)
        ∙ ap (λ (x : B.State × Option AesKey × KeyFile). ret x.1) out in
      (
        c,
        c',
        p,
        must-ret _ made,
        subst (λ y. settle_keys C K g random c f ≡ ret (c', y)) same settled,
        sym (settle_keys-privkey g random c f settled) ∙ pointer-ret c'.privkey there,
        subst (λ y. unseal_shared_key C K missing p y ≡ ret key) same key',
      )

  unseal-file :
      (missing : Err) (p : AesKey) (f : KeyFile) {key : Option AesKey}
      → unseal_shared_key C K missing p f ≡ ret key
      → (x : Bytes) × (f ≡ some x)
  unfolding unseal_shared_key
  unseal-file missing p none h = absurd (cc)
  unseal-file missing p (some x) h = (x, refl)

  -- A node that has come up and comes up again on the same machine with the key file it left has the
  -- shared key it had, and leaves the file as it is, whether it is the first of its cluster or not
  -- and whatever the random source gives.
  pub boot_again :
      (B : Bolt) (g g' : Bool) (machine_id : Outcome Bytes)
      (cluster cluster' plugins plugins' : Outcome (Unit {0})) (random random' : Random)
      (opened opened' : Outcome B.State) (missing : Err) (f : KeyFile) {s s' : B.State}
      {key key' : Option AesKey} {f₁ f₂ : KeyFile}
      → boot C K B g machine_id cluster plugins random opened missing f ≡ ret (s, key, f₁)
      → boot C K B g' machine_id cluster' plugins' random' opened' missing f₁ ≡ ret (s', key', f₂)
      → (key' ≡ key) × (f₂ ≡ f₁)
  boot_again B g g' machine_id cluster cluster' plugins plugins' random random' opened opened'
        missing f {key} {key'} {f₁} {f₂} h k =
      let (c, c', p, made, settled, priv, key₁) =
        boot-inv B g machine_id cluster plugins random opened missing f h in
      let (d, d', q, made', settled', priv', key₂) =
        boot-inv B g' machine_id cluster' plugins' random' opened' missing f₁ k in
      let (x, there) = unseal-file missing p f₁ key₁ in
      let kept : f₂ ≡ some x =
        settle_keys-file g' random' d x
          (subst (λ y. settle_keys C K g' random' d y ≡ ret (d', f₂)) there settled') in
      let same : q ≡ p =
        some-inj (sym priv' ∙ ap (λ (z : Crypto). z.privkey) (ret-inj (sym made' ∙ made)) ∙ priv) in
      let file : f₂ ≡ f₁ = kept ∙ sym there in
      let again : unseal_shared_key C K missing p f₁ ≡ ret key' =
        subst (λ y. unseal_shared_key C K missing p y ≡ ret key') file
          (subst (λ y. unseal_shared_key C K missing y f₂ ≡ ret key') same key₂) in
      (ret-inj (sym again ∙ key₁), file)

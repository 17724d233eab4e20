-- ===== src/Crypto/Laws.antt =====
-- Sealing and unsealing.
use cave.Base.{
  zero, suc, ◌∷◌, ◌≤◌, ◌↔◌, sym, ap, take, drop, Outcome, ◌>>?◌, Option, ℕ, ◌<◌, ◌≡◌, ◌≢◌, subst,
  ◌⊎◌, refl, ◌∙◌, inl, inr, Bool, true, none, some, [], ◌++◌, Bytes, arith, length,
  take-length-append, drop-length-append, length-append, Err, ret, fail, panic, Outcome-cases,
}
use cave.Types.{Codec, ReadsBack}
use cave.Crypto.{
  AesKey, Secret, Ciphers, IsAead, CryptoCodecs, KeyFile, slice_to, write_key, seal_shared_key,
  sealed, open_prefixed, unseal_shared_key, encryt_json, secret_of, decrypt_json,
}

-- The key of a cipher has the size of the cipher's nonce.
pub record IsKey (C : Ciphers) (k : AesKey) : Type 0 where
  pub size : length k.key ≡ k.nonce_size
  pub good : C.gcm k.pass ≡ ret k.nonce_size

slice_to-short : (n : ℕ) (s : Bytes) → length s < n → slice_to n s ≡ panic
slice_to-short n s h = ground arith

slice_to-long : (n : ℕ) (s : Bytes) → n ≤ length s → slice_to n s ≡ ret (take n s)
slice_to-long n s h = ground arith

short-or-long : (m n : ℕ) → (m < n) ⊎ (n ≤ m)
short-or-long m n = ground arith

length-take_le : (n : ℕ) (s : Bytes) → n ≤ length s → length (take n s) ≡ n
length-take_le zero s h = refl
length-take_le (suc n) [] h = absurd (omega (arith, h))
length-take_le (suc n) (x ∷ s) h = ap suc (length-take_le n s (omega (arith, h)))

bind-panic :
    {A B : Type 0} (o : Outcome A) (f : A → Outcome B)
    → o ≢ panic
    → ((a : A) → f a ≢ panic)
    → (o >>? f) ≢ panic
bind-panic (ret a) f p q h = q a h
bind-panic (fail x) f p q h = cc
bind-panic panic f p q h = p refl

slice_to-length : (a b : Bytes) → slice_to (length a) (a ++ b) ≡ ret a
slice_to-length a b = rw (length-append, take-length-append) (ground arith)

module _ (C : Ciphers) (J : CryptoCodecs) (aead : IsAead C) where
  -- What is sealed under a key opens again.
  pub open_prefixed-sealed :
      (k : AesKey) (text : Bytes) → IsKey C k → open_prefixed C J k (sealed C J k text) ≡ ret text
  unfolding open_prefixed sealed
  open_prefixed-sealed k text g =
      let opened = aead.open-seal k.pass k.key text in
      rw (← g.size, slice_to-length, drop-length-append) opened

  write_key-good :
      (shared : Option AesKey) (privkey : AesKey) (f : KeyFile) (b : Bytes)
      → IsKey C privkey
      → J.keys.marshal shared ≡ ret b
      → write_key C J shared privkey f ≡ (ret tt, some (sealed C J privkey b))
  unfolding write_key
  write_key-good shared privkey f b g m = rw (m, g.good, write_key)

  seal_shared_key-good :
      (shared : Option AesKey) (privkey : AesKey) (overwrite : Bool) (f : KeyFile) (b : Bytes)
      → IsKey C privkey
      → J.keys.marshal shared ≡ ret b
      → (overwrite ≡ true) ⊎ (f ≡ none)
      → seal_shared_key C J shared privkey overwrite f ≡ (ret tt, some (sealed C J privkey b))
  unfolding seal_shared_key
  seal_shared_key-good shared privkey overwrite none b g m h =
      write_key-good shared privkey none b g m
  seal_shared_key-good shared privkey overwrite (some x) b g m (inl e) =
      rw e (write_key-good shared privkey (some x) b g m)
  seal_shared_key-good shared privkey overwrite (some x) b g m (inr e) = absurd (cc)

  unseal_shared_key-sealed :
      (shared : Option AesKey) (privkey : AesKey) (missing : Err) (b : Bytes)
      → IsKey C privkey
      → J.keys.unmarshal b ≡ ret shared
      → unseal_shared_key C J missing privkey (some (sealed C J privkey b)) ≡ ret shared
  unfolding unseal_shared_key
  unseal_shared_key-sealed shared privkey missing b g m =
      rw (g.good, open_prefixed-sealed privkey b g) m

  -- A shared key that encodes is sealed into the key file, when overwriting or when there is no file
  -- yet, and unsealing under the same system key gives it back.
  pub unseal_shared_key-seal_shared_key :
      (shared : Option AesKey) (privkey : AesKey) (overwrite : Bool) (f : KeyFile) (missing : Err)
      (b : Bytes)
      → IsKey C privkey
      → J.keys.marshal shared ≡ ret b
      → ReadsBack J.keys shared
      → (overwrite ≡ true) ⊎ (f ≡ none)
      → let (r, f') = seal_shared_key C J shared privkey overwrite f in
        (r ≡ ret tt) × (unseal_shared_key C J missing privkey f' ≡ ret shared)
  unseal_shared_key-seal_shared_key shared privkey overwrite f missing b g m back w =
      rw (seal_shared_key-good shared privkey overwrite f b g m w)
        (refl, unseal_shared_key-sealed shared privkey missing b g (back b m))

  encryt_json-inv :
      {A : Type 0} (codec : Codec A) (k : AesKey) (value : A) (text : Bytes)
      → IsKey C k
      → encryt_json C J codec k value ≡ ret text
      → (b : Bytes) × (codec.marshal value ≡ ret b)
        × (J.secrets.marshal (record { secret = sealed C J k b }) ≡ ret text)
  unfolding encryt_json
  encryt_json-inv codec k value text g h = elim (Outcome-cases (codec.marshal value)) [
    | inl (b, m) ↦ (b, m, rw (m, g.good) at h)
    | inr (inl (x, m)) ↦ absurd (cc (rw m at h))
    | inr (inr m) ↦ absurd (cc (rw m at h))
  ]

  -- What encrypting gives is not the empty text, if that is no secret.
  pub encryt_json-nonempty :
      (k : AesKey) (value text : Bytes) {x : Err}
      → IsKey C k
      → ((s : Secret) → ReadsBack J.secrets s)
      → J.secrets.unmarshal [] ≡ fail x
      → encryt_json C J J.blobs k value ≡ ret text
      → text ≢ []
  encryt_json-nonempty k value text g keep empty h e =
      let (b, m, f) = encryt_json-inv J.blobs k value text g h in
      let back = keep (record { secret = sealed C J k b }) text f in
      cc (
        subst (λ t. J.secrets.unmarshal t ≡ ret (record { secret = sealed C J k b })) e back,
        empty,
      )

  decrypt_json-secret :
      (k : AesKey) (text b : Bytes)
      → IsKey C k
      → J.secrets.unmarshal text ≡ ret (record { secret = sealed C J k b })
      → decrypt_json C J k text ≡ J.blobs.unmarshal b
  unfolding decrypt_json
  decrypt_json-secret k text b g m = rw (m, g.good, open_prefixed-sealed k b g)

  -- Decrypting what encrypting a byte string gave yields the byte string, under a key of its cipher's
  -- nonce size, if the encodings read back.
  pub decrypt_json-encryt_json :
      (k : AesKey) (value text : Bytes)
      → IsKey C k
      → ReadsBack J.blobs value
      → ((s : Secret) → ReadsBack J.secrets s)
      → encryt_json C J J.blobs k value ≡ ret text
      → decrypt_json C J k text ≡ ret value
  decrypt_json-encryt_json k value text g back keep h =
      let (b, m, e) = encryt_json-inv J.blobs k value text g h in
      decrypt_json-secret k text b g (keep (record { secret = sealed C J k b }) text e) ∙ back b m

module _ (C : Ciphers) (J : CryptoCodecs) where
  open_prefixed-short :
      (k : AesKey) (s : Bytes) → length s < k.nonce_size → open_prefixed C J k s ≡ panic
  unfolding open_prefixed
  open_prefixed-short k s h = rw (slice_to-short k.nonce_size s h)

  open_prefixed-long :
      (k : AesKey) (s : Bytes)
      → k.nonce_size ≤ length s
      → open_prefixed C J k s ≡ C.open_sealed k.pass (take k.nonce_size s) (drop k.nonce_size s)
  unfolding open_prefixed
  open_prefixed-long k s h = rw (slice_to-long k.nonce_size s h)

  decrypt_json-left :
      (k : AesKey) (text : Bytes) {s : Bytes}
      → C.gcm k.pass ≡ ret k.nonce_size
      → secret_of C J text (J.secrets.unmarshal text) ≡ ret s
      → decrypt_json C J k text ≡ (open_prefixed C J k s >>? J.blobs.unmarshal)
  unfolding decrypt_json
  decrypt_json-left k text g e = rw (e, g)

  -- Under a cipher that gcm accepts, decrypting a text panics exactly if what json.Unmarshal has left
  -- in the secret, with an error or without, is shorter than the nonce: if neither the unmarshalling
  -- of the secret nor that of the value panics, nor Open at a nonce of the right size.
  pub decrypt_json-panic_iff :
      (k : AesKey) (text : Bytes) {s : Bytes}
      → C.gcm k.pass ≡ ret k.nonce_size
      → secret_of C J text (J.secrets.unmarshal text) ≡ ret s
      → ((n t : Bytes) → length n ≡ k.nonce_size → C.open_sealed k.pass n t ≢ panic)
      → ((b : Bytes) → J.blobs.unmarshal b ≢ panic)
      → (decrypt_json C J k text ≡ panic) ↔ (length s < k.nonce_size)
  decrypt_json-panic_iff k text {s} g e opens reads =
      let same = decrypt_json-left k text {s = s} g e in
      (
        (λ h. elim (short-or-long (length s) k.nonce_size) [
          | inl short ↦ short
          | inr long ↦
              let n = take k.nonce_size s in
              let t = drop k.nonce_size s in
              let k' : (C.open_sealed k.pass n t >>? J.blobs.unmarshal) ≡ panic =
                sym (ap (λ o. o >>? J.blobs.unmarshal) (open_prefixed-long k s long))
                ∙ sym same
                ∙ h in
              absurd (
                bind-panic (C.open_sealed k.pass n t) J.blobs.unmarshal
                  (opens n t (length-take_le k.nonce_size s long)) reads k')
        ]),
        λ short. same ∙ ap (λ o. o >>? J.blobs.unmarshal) (open_prefixed-short k s short),
      )

-- ===== src/Token/Expiry.antt =====
-- Deletion of tokens and the cleanup cycle.
use cave.Base.{
  ◌≡◌, refl, sym, subst, ◌∙◌, inl, inr, Bool, false, Option, none, some, List, [], ◌∷◌, Bytes,
  arith, eqb, eqb_iff, eqb_refl, if◌then◌else◌, listed, Dict, lookup, lookup-erase, NodupKeys,
  Outcome, ret, fail, panic, Option-cases, Bool-cases,
}
use cave.Types.{Time, Message, Codec}
use cave.Token.{
  Token, TokenStore, entries, erase_entry, no_token, under_lock, and_then, emit_store, is_stale,
  stale_keys, delete, delete_all, cleanup,
}
use cave.Token.Validity.{under_lock-free, under_lock-held, some-inj, emit_store-store, state-inj}

pub lookup-erase_entry :
    (k j : Bytes) (m : Option (Dict Token))
    → lookup j (entries (erase_entry k m)) ≡ (if eqb k j then none else lookup j (entries m))
unfolding lookup
lookup-erase_entry k j none = ground arith
lookup-erase_entry k j (some d) = lookup-erase k j d

-- A key is collected exactly if its token is stale.
abbrev pub stale_at : (Bytes → Time) → (Bytes → Time) → Bytes → Option Token → Bool
stale_at clock clock' k none = false
stale_at clock clock' k (some v) = is_stale (clock k) (clock' k) v

listed-stale_keys :
    (clock clock' : Bytes → Time) (m : Dict Token) (k : Bytes)
    → NodupKeys m
    → listed k (stale_keys clock clock' m) ≡ stale_at clock clock' k (lookup k m)
unfolding stale_keys lookup
listed-stale_keys clock clock' [] k u = refl
listed-stale_keys clock clock' ((j, v) ∷ m) k (fresh, u) = elim (Bool-cases (eqb j k)) [
  | inl e ↦
      let same : j ≡ k = (eqb_iff j k).0 e in
      let ih : listed k (stale_keys clock clock' m) ≡ false =
        listed-stale_keys clock clock' m k u ∙ rw (subst (λ x. lookup x m ≡ none) same fresh) in
      rw same (
        rw (eqb_refl k) (elim (Bool-cases (is_stale (clock k) (clock' k) v)) [
          | inl s ↦ rw (s, eqb_refl k)
          | inr s ↦ rw s ih
        ]))
  | inr e ↦ rw e (elim (Bool-cases (is_stale (clock j) (clock' j) v)) [
    | inl s ↦ rw (s, e) (listed-stale_keys clock clock' m k u)
    | inr s ↦ rw s (listed-stale_keys clock clock' m k u)
  ])
]

module _ (tokens : Codec (Option (Dict Token))) (messages : Codec Message) where
  emit_then-store :
      (id : Bytes) (t : TokenStore) {r : Outcome (Unit {0})} {t' : TokenStore}
      → and_then (emit_store tokens messages id) (λ _ s. some (fail no_token, s)) t ≡ some (r, t')
      → t'.store ≡ t.store
  emit_then-store id t {r} {t'} h = elim (Option-cases (emit_store tokens messages id t)) [
    | inl e ↦ absurd (cc (rw e at h))
    | inr ((ret u, s), e) ↦ rw (← state-inj (rw e at h)) (emit_store-store tokens messages id t e)
    | inr ((fail x, s), e) ↦ rw (← state-inj (rw e at h)) (emit_store-store tokens messages id t e)
    | inr ((panic, s), e) ↦ rw (← state-inj (rw e at h)) (emit_store-store tokens messages id t e)
  ]

  pub delete-found :
      (k id : Bytes) (t : TokenStore) {v : Token}
      → lookup k (entries t.store) ≡ some v
      → delete tokens messages k id t ≡ under_lock (erase_entry k) t
  unfolding delete
  delete-found k id t e = rw (e, delete)

  delete-missing :
      (k id : Bytes) (t : TokenStore)
      → lookup k (entries t.store) ≡ none
      → delete tokens messages k id t
        ≡ and_then (emit_store tokens messages id) (λ _ t'. some (fail no_token, t')) t
  unfolding delete
  delete-missing k id t e = rw (e, delete)

  -- Whatever Delete returns when it returns, its token is gone and every other is as before.
  pub lookup-delete :
      (k j id : Bytes) (t : TokenStore) {r : Outcome (Unit {0})} {t' : TokenStore}
      → delete tokens messages k id t ≡ some (r, t')
      → lookup j (entries t'.store) ≡ (if eqb k j then none else lookup j (entries t.store))
  lookup-delete k j id t {r} {t'} h = elim (Option-cases (lookup k (entries t.store))) [
    | inr (v, e) ↦ elim (Bool-cases t.locked) [
      | inl held ↦ absurd (cc (delete-found k id t e, under_lock-held (erase_entry k) t held, h))
      | inr free ↦
          let k' : some (ret tt, record t { store = erase_entry k t.store }) ≡ some (r, t') =
            sym (delete-found k id t e ∙ under_lock-free (erase_entry k) t free) ∙ h in
          subst
            (λ (s : TokenStore).
              lookup j (entries s.store) ≡ (if eqb k j then none else lookup j (entries t.store)))
            (state-inj k') (lookup-erase_entry k j t.store)
    ]
    | inl e ↦
        let kept : t'.store ≡ t.store = emit_then-store id t (sym (delete-missing k id t e) ∙ h) in
        rw kept (ground (arith, eqb_iff k j))
  ]

  lookup-delete_all :
      (ks : List Bytes) (j id : Bytes) (t : TokenStore) {t' : TokenStore}
      → delete_all tokens messages ks id t ≡ some t'
      → lookup j (entries t'.store) ≡ (if listed j ks then none else lookup j (entries t.store))
  unfolding delete_all
  lookup-delete_all [] j id t h = rw (← some-inj h)
  lookup-delete_all (k ∷ ks) j id t {t'} h = elim (Option-cases (delete tokens messages k id t)) [
    | inl e ↦ absurd (cc (rw (e, delete_all) at h))
    | inr ((r, s), e) ↦
        let rest : delete_all tokens messages ks id s ≡ some t' = rw (e, delete_all) at h in
        lookup-delete_all ks j id s rest ∙ ground (arith, lookup-delete k j id t e)
  ]

  -- After a cleanup that ends, of a store whose keys are distinct, a token is there exactly if it was
  -- there and was not stale when the cycle looked at it: issued before and not expired.
  pub lookup-cleanup :
      (clock clock' : Bytes → Time) (k id : Bytes) (t : TokenStore) {t' : TokenStore}
      → NodupKeys (entries t.store)
      → cleanup tokens messages clock clock' id t ≡ some t'
      → lookup k (entries t'.store) ≡ (
          if stale_at clock clock' k (lookup k (entries t.store))
          then none
          else lookup k (entries t.store))
  unfolding cleanup
  lookup-cleanup clock clock' k id t {t'} u h =
      rw (← listed-stale_keys clock clock' (entries t.store) k u)
        (lookup-delete_all (stale_keys clock clock' (entries t.store)) k id t {t' = t'} h)

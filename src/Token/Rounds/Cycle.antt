-- ===== src/Token/Rounds/Cycle.antt =====
-- How soon Start cleans up.
use cave.Base.{
  Option, ℕ, suc, ◌+◌, ◌-◌, ◌%◌, ◌≡◌, refl, subst, ◌∙◌, inl, inr, false, none, some, List, [], ◌∷◌,
  ◌++◌, map, Bytes, length, if◌then◌else◌, arith, eqb, eqb_iff, eqb_refl, Dict, lookup, NodupKeys,
  Bool-cases, Option-cases, true, ◌<◌, ◌==◌, ret,
}
use cave.Types.{Time, Message, Codec}
use cave.Token.{
  Token, TokenStore, entries, erase_entry, is_stale, stale_keys, delete, delete_all, cleanup,
}
use cave.Token.Validity.{under_lock-free}
use cave.Token.Expiry.{stale_at, lookup-erase_entry, delete-found, lookup-cleanup}
use cave.Token.Rounds.{Turn, Idle, idles, Loop, turn, and_round, rounds}

-- A key that is not there is none of those that are.
fresh-other :
    (j k : Bytes) (m : Dict Token) {w : Token}
    → lookup j m ≡ none
    → lookup k m ≡ some w
    → eqb j k ≡ false
fresh-other j k m e g = elim (Bool-cases (eqb j k)) [
  | inl h ↦ absurd (cc ((eqb_iff j k).0 h, e, g))
  | inr h ↦ h
]

module _ (tokens : Codec (Option (Dict Token))) (messages : Codec Message) where
  -- Deleting tokens that are there does not wait, if the mutex is free.
  delete_all-stale_keys :
      (clock clock' : Bytes → Time) (id : Bytes) (m : Dict Token) (t : TokenStore)
      → NodupKeys m
      → t.locked ≡ false
      → ((k : Bytes) (v : Token) → lookup k m ≡ some v → lookup k (entries t.store) ≡ some v)
      → (t' : TokenStore) × (delete_all tokens messages (stale_keys clock clock' m) id t ≡ some t')
        × (t'.locked ≡ false)
  unfolding stale_keys delete_all lookup
  delete_all-stale_keys clock clock' id [] t u free cover = (t, refl, free)
  delete_all-stale_keys clock clock' id ((j, v) ∷ m) t (fresh, u) free cover =
      let other =
        λ (k : Bytes) (w : Token) (g : lookup k m ≡ some w). fresh-other j k m {w = w} fresh g in
      let rest =
        λ (k : Bytes) (w : Token) (g : lookup k m ≡ some w). cover k w (rw (other k w g) g) in
      elim (Bool-cases (is_stale (clock j) (clock' j) v)) [
        | inl s ↦
            let here : delete tokens messages j id t
                ≡ some (ret tt, record t { store = erase_entry j t.store }) =
              delete-found tokens messages j id t {v = v} (cover j v (rw (eqb_refl j)))
              ∙ under_lock-free (erase_entry j) t free in
            let (t', e, f) =
              delete_all-stale_keys clock clock' id m (record t { store = erase_entry j t.store }) u
                free (λ k w g. lookup-erase_entry j k t.store ∙ rw (other k w g) (rest k w g)) in
            (t', rw (s, here, delete_all) e, f)
        | inr s ↦ rw s (delete_all-stale_keys clock clock' id m t u free rest)
      ]

  rounds-append :
      (xs ys : List Turn) (l : Loop)
      → rounds tokens messages (xs ++ ys) l
        ≡ and_round (rounds tokens messages xs l) (rounds tokens messages ys)
  unfolding rounds
  rounds-append [] ys l = refl
  rounds-append (x ∷ xs) ys (i, t) = elim (Option-cases (turn tokens messages x (suc i) t)) [
    | inl e ↦ rw (e, rounds)
    | inr (l, e) ↦ rw (e, rounds) (rounds-append xs ys l)
  ]

  -- Idle rounds that do not come to a multiple of a hundred only count.
  rounds-idles :
      (us : List Idle) (i : ℕ) (t : TokenStore)
      → i % 100 + length us < 100
      → rounds tokens messages (map idles us) (i, t) ≡ some (i + length us, t)
  unfolding rounds turn
  rounds-idles [] i t h = ground arith
  rounds-idles (u ∷ us) i t h =
      let early : (suc i % 100 == 0) ≡ false = ground arith in
      let sum : suc i + length us ≡ i + suc (length us) = omega arith in
      rw early (
        subst (λ n. rounds tokens messages (map idles us) (suc i, t) ≡ some (n, t)) sum
          (rounds-idles us (suc i) t (omega (arith, h))))

  -- From any state of a store whose mutex is free and whose keys are distinct, as many idle rounds in a
  -- row as bring idx to the next multiple of a hundred, which are a hundred at most, come to an end;
  -- the last of them has set idx to 0 and deleted exactly the tokens that were stale when it looked at
  -- them, and has left the mutex free.
  pub rounds-cleanup :
      (us : List Idle) (last : Idle) (i : ℕ) (t : TokenStore)
      → length us ≡ 99 - i % 100
      → NodupKeys (entries t.store)
      → t.locked ≡ false
      → (t' : TokenStore) × (rounds tokens messages (map idles us ++ idles last ∷ []) (i, t)
          ≡ some (0, t'))
        × (t'.locked ≡ false)
        × ((k : Bytes)
            → lookup k (entries t'.store) ≡ (
                if stale_at last.clock last.clock' k (lookup k (entries t.store))
                then none
                else lookup k (entries t.store)))
  unfolding rounds turn cleanup
  rounds-cleanup us last i t n u free =
      let (t', done, f) =
        delete_all-stale_keys last.clock last.clock' last.id (entries t.store) t u free
          (λ k v g. g) in
      let due : (suc (i + length us) % 100 == 0) ≡ true = ground arith in
      let before = rounds-idles us i t (omega (arith, n)) in
      (
        t',
        rounds-append (map idles us) (idles last ∷ []) (i, t) ∙ rw (before, due, done),
        f,
        λ k. lookup-cleanup tokens messages last.clock last.clock' k last.id t {t' = t'} u done,
      )

-- ===== src/Kv/Shape.antt =====
-- The shape of the store, that whatever a bucket holds the bucket itself is there, under the
-- transactions of the engine.
use cave.Base.{
  ◌≡◌, ◌≢◌, ◌⊎◌, refl, sym, ◌∙◌, subst, inl, inr, Bool, true, false, Option, some, List, [], ◌∷◌,
  Bytes, path_eqb_iff, arith, Outcome, ret, Bool-cases, if◌then◌else◌,
}
use cave.Bolt.{
  Handle, Slot, absent, stored, bucket, Bolt, IsBolt, same_place, delete_bucket_slot, below,
}
use cave.Kv.{walk, put_in, delete_in, delete_bucket_in}
use cave.Kv.PutIn.{made, put_in-round, put_in_lem, put-buckets, put-keeps}
use cave.Kv.DeleteIn.{delete_in_lem, at_bucket-cases, delete_bucket_in-at_bucket}
use cave.Kv.Walk.{extend, IsChain, create-Grows, walk-round, same_place_sound}

slot-cases : (w : Slot) → (w ≡ absent) ⊎ (w ≢ absent)
slot-cases absent = inl refl
slot-cases (stored v) = inr (λ e. cc)
slot-cases bucket = inr (λ e. cc)

pub delete_bucket_slot-ok : (w : Slot) {u : Unit {0}} → delete_bucket_slot w ≡ ret u → w ≡ bucket
delete_bucket_slot-ok absent e = cc
delete_bucket_slot-ok (stored v) e = cc
delete_bucket_slot-ok bucket e = refl

absent_if :
    (x y : Bool) (w : Slot)
    → (y ≡ true) ⊎ (w ≡ absent)
    → (if x then absent else if y then absent else w) ≡ absent
absent_if x y w (inl e) = ground arith
absent_if x y w (inr e) = ground arith

module _ (B : Bolt) (L : IsBolt B) where
  open L use {slot}

  -- The handle is that of the transaction or of a bucket that is there.
  abbrev pub IsLive : B.State → Handle → Type 0
  IsLive s [] = Unit
  IsLive s (n ∷ p) = slot s p n ≡ bucket

  -- What a bucket holds, it holds while it is there itself.
  abbrev pub IsTree : B.State → Type 0
  IsTree s = (q : Handle) (m : Bytes) → slot s q m ≢ absent → IsLive s q

  IsLive-grows :
      (s t : B.State) (q : Handle)
      → ((p : Handle) (m : Bytes) → slot s p m ≡ bucket → slot t p m ≡ bucket)
      → IsLive s q
      → IsLive t q
  IsLive-grows s t [] g h = tt
  IsLive-grows s t (n ∷ p) g h = g p n h

  -- A change of one slot in a live bucket that keeps the buckets keeps the shape.
  IsTree-change :
      (s t : B.State) (p : Handle) (n : Bytes)
      → IsLive t p
      → ((q : Handle) (m : Bytes) → slot s q m ≡ bucket → slot t q m ≡ bucket)
      → ((q : Handle) (m : Bytes) → same_place p n q m ≡ false → slot t q m ≡ slot s q m)
      → IsTree s
      → IsTree t
  IsTree-change s t p n live g frame tree q m h = elim (Bool-cases (same_place p n q m)) [
    | inl same ↦ let (e, f) = same_place_sound p n q m same in subst (IsLive t) e live
    | inr other ↦ IsLive-grows s t q g (tree q m (λ z. h (frame q m other ∙ z)))
  ]

  -- Below a live chain everything is a chain of buckets.
  pub IsChain-IsLive :
      (s : B.State) (h : Handle) (bs : List Bytes)
      → IsTree s
      → IsLive s (extend h bs)
      → IsLive s h × IsChain B L s h bs
  IsChain-IsLive s h [] tree live = (live, tt)
  IsChain-IsLive s h (b ∷ bs) tree live =
      let (e, c) = IsChain-IsLive s (b ∷ h) bs tree live in (tree h b (λ z. cc (e, z)), (e, c))

  IsChain-end :
      (s : B.State) (h : Handle) (bs : List Bytes)
      → IsLive s h
      → IsChain B L s h bs
      → IsLive s (extend h bs)
  IsChain-end s h [] live c = live
  IsChain-end s h (b ∷ bs) live (e, c) = IsChain-end s (b ∷ h) bs e c

  create-IsTree :
      (s : B.State) (h : Handle) (b : Bytes) → IsLive s h → IsTree s → IsTree (B.create h b s).1
  create-IsTree s h b live =
      let g = λ (q : Handle) (m : Bytes) (e : slot s q m ≡ bucket).
        create-Grows B L h b s q m (rw e (λ z. cc)) ∙ e in
      IsTree-change s (B.create h b s).1 h b (IsLive-grows s _ h g live) g
        (λ q m o. rw (L.slot-create, o))

  walk_create-IsTree :
      (s : B.State) (h : Handle) (bs : List Bytes) (name : Bytes) {r : Option Handle × Bytes}
      → (walk B true bs (some h) name s).0 ≡ ret r
      → IsLive s h
      → IsTree s
      → IsTree (walk B true bs (some h) name s).1
  walk_create-IsTree s h [] name e live tree = unfold walk in tree
  walk_create-IsTree s h (b ∷ bs) name e live tree =
      let (made, step) = walk-round B L s h b bs name e in
      subst (λ (w : Outcome (Option Handle × Bytes) × B.State). IsTree w.1) (sym step)
        (walk_create-IsTree (B.create h b s).1 (b ∷ h) bs b (rw step at e) made
          (create-IsTree s h b live tree))

  pub put_in-IsTree :
      (buckets : List Bytes) (k prefix bobj : Bytes) (s : B.State) {u : Unit {0}}
      → (put_in B buckets k prefix bobj s).0 ≡ ret u
      → IsTree s
      → IsTree (put_in B buckets k prefix bobj s).1
  put_in-IsTree buckets k prefix bobj s e tree =
      let (there, r, w, step) = put_in-round B L buckets k prefix bobj s e in
      let done = put_in_lem B L buckets k prefix bobj s e in
      let p = extend (prefix ∷ []) buckets in
      let mid = (made B L buckets prefix s).1 in
      let live = IsChain-end _ (prefix ∷ []) buckets done.root done.chain in
      subst (λ (z : Outcome (Unit {0}) × B.State). IsTree z.1) (sym step)
        (IsTree-change mid (B.put p k bobj mid).1 p k
          (subst (λ (z : Outcome (Unit {0}) × B.State). IsLive z.1 p) step live)
          (put-buckets B L p k bobj mid (rw step at e)) (put-keeps B L p k bobj mid)
          (walk_create-IsTree s (prefix ∷ []) buckets prefix w there tree))

  pub delete_in-IsTree :
      (buckets : List Bytes) (k prefix : Bytes) (s : B.State) {u : Unit {0}}
      → (delete_in B buckets k prefix s).0 ≡ ret u
      → IsTree s
      → IsTree (delete_in B buckets k prefix s).1
  delete_in-IsTree buckets k prefix s e tree =
      let done = delete_in_lem B L buckets k prefix s e in
      IsTree-change s _ (extend (prefix ∷ []) buckets) k
        (IsChain-end _ (prefix ∷ []) buckets done.root done.chain) done.buckets_kept done.frame tree

  -- What is below a bucket is below every bucket that it lies in.
  below-cons : (p : Handle) (a : Bytes) (q : Handle) → below p q ≡ true → below p (a ∷ q) ≡ true
  below-cons p a q h = ground arith

  below_refl : (p : Handle) → below p p ≡ true
  below_refl [] = rw ((path_eqb_iff [] []).1 refl)
  below_refl (a ∷ p) = rw ((path_eqb_iff (a ∷ p) (a ∷ p)).1 refl)

  -- A bucket that is not below another one is neither that one nor in one below it.
  apart_cases :
      (p : Handle) (n a : Bytes) (q : Handle)
      → below (n ∷ p) (a ∷ q) ≡ false
      → (same_place p n q a ≡ false) × (below (n ∷ p) q ≡ false)
  apart_cases p n a q h = (
    elim (Bool-cases (same_place p n q a)) [
      | inr e ↦ e
      | inl e ↦
          let (f, g) = same_place_sound p n q a e in
          let same : n ∷ p ≡ a ∷ q = cc in
          let k = subst (λ r. below r (a ∷ q) ≡ true) (sym same) (below_refl (a ∷ q)) in
          absurd (cc (h, k))
    ],
    elim (Bool-cases (below (n ∷ p) q)) [
      | inr e ↦ e
      | inl e ↦ absurd (cc (h, below-cons (n ∷ p) a q e))
    ],
  )

  delete_bucket-IsTree :
      (p : Handle) (n : Bytes) (s : B.State)
      → slot s p n ≡ bucket
      → IsTree s
      → IsTree (B.delete_bucket p n s).1
  delete_bucket-IsTree p n s b tree [] m h = tt
  delete_bucket-IsTree p n s b tree (a ∷ q) m h = elim (Bool-cases (below (n ∷ p) (a ∷ q))) [
    | inl under ↦ absurd (
        h (
          L.slot-delete_bucket p n s (a ∷ q) m b
          ∙ absent_if (same_place p n (a ∷ q) m) (below (n ∷ p) (a ∷ q)) _ (inl under)))
    | inr apart ↦
        let (x, y) = apart_cases p n a q apart in
        let there : slot s q a ≡ bucket = tree (a ∷ q) m (λ z. h (
          L.slot-delete_bucket p n s (a ∷ q) m b
          ∙ absent_if (same_place p n (a ∷ q) m) (below (n ∷ p) (a ∷ q)) _ (inr z))) in
        L.slot-delete_bucket p n s q a b ∙ rw (x, y) there
  ]

  pub delete_bucket_in-IsTree :
      (buckets : List Bytes) (k prefix : Bytes) (s : B.State) {u : Unit {0}}
      → (delete_bucket_in B buckets k prefix s).0 ≡ ret u
      → IsTree s
      → IsTree (delete_bucket_in B buckets k prefix s).1
  delete_bucket_in-IsTree buckets k prefix s e tree =
      let p = extend (prefix ∷ []) buckets in
      let e' = rw (delete_bucket_in-at_bucket B L buckets k prefix) at e in
      elim (at_bucket-cases B L (λ h. B.delete_bucket h k) buckets prefix s) [
        | inl (there, chain, step) ↦
            let done : delete_bucket_slot (slot s p k) ≡ ret _ =
              sym (L.delete_bucket_lem p k s) ∙ (rw step at e') in
            rw (delete_bucket_in-at_bucket B L buckets k prefix) (
              subst (λ (z : Outcome (Unit {0}) × B.State). IsTree z.1) (sym step)
                (delete_bucket-IsTree p k s (delete_bucket_slot-ok (slot s p k) done) tree))
        | inr (inl (x, step)) ↦ absurd (cc (rw step at e'))
        | inr (inr step) ↦ absurd (cc (rw step at e'))
      ]

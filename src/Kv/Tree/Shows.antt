-- ===== src/Kv/Tree/Shows.antt =====
-- What the tree of GetTree shows, and the bound of the nesting that it needs.
use cave.Base.{
  ℕ, zero, suc, ◌≡◌, ◌↔◌, refl, sym, ap, subst, ◌∙◌, inl, inr, true, false, Option, none, some,
  List, [], ◌∷◌, Bytes, eqb, eqb_iff, if◌then◌else◌, listed, Outcome, ret, ◌>>?◌, then-ret, ret-inj,
  Bool-cases,
}
use cave.Bolt.{Handle, Slot, absent, stored, bucket, is_present, child_of, value_of, Bolt, IsBolt}
use cave.Kv.{bytes_of}
use cave.Kv.Walk.{extend, IsChain}
use cave.Kv.Tree.{Tree, raw, empty, entry, entry_of, entries_of, enumerate_bucket}

-- m[k] in the map that the tree stands for
unfoldable pub entry_at : Bytes → Tree → Option Tree
entry_at k (raw v) = none
entry_at k empty = none
entry_at k (entry j t r) = let rest = entry_at k r in if eqb j k then some t else rest

abbrev pub raw_of : Option Tree → Option Bytes
raw_of none = none
raw_of (some (raw v)) = some v
raw_of (some empty) = none
raw_of (some (entry k t r)) = none

-- The value at the end of a chain of names.
unfoldable pub value_at : List Bytes → Bytes → Tree → Option Bytes
unfolding entry_at
value_at [] k t = raw_of (entry_at k t)
value_at (b ∷ bs) k t = elim (entry_at b t) [ none ↦ none | some u ↦ value_at bs k u ]

-- What the loop makes of one slot.
abbrev pub shown : (Outcome Tree) → Slot → Outcome (Option Tree)
shown below absent = ret none
shown below (stored v) = ret (some (raw v))
shown below bucket = below >>? λ t. ret (some t)

module _ (B : Bolt) (L : IsBolt B) where
  open L use {slot}

  entry_of-slot :
      (f : Handle → Outcome Tree) (s : B.State) (h : Handle) (k : Bytes) (w : Slot)
      (rest : Outcome Tree) {t : Tree}
      → slot s h k ≡ w
      → is_present w ≡ true
      → entry_of f k (bytes_of (B.get s h k)) (B.child s h k) rest ≡ ret t
      → (u : Tree) × (r : Tree) × (shown (f (k ∷ h)) w ≡ ret (some u))
        × (rest ≡ ret r)
        × (t ≡ entry k u r)
  entry_of-slot f s h k absent rest e p h' = absurd (cc)
  entry_of-slot f s h k (stored v) rest {t} e p h' =
      let c : B.child s h k ≡ none = L.child_lem s h k ∙ ap (child_of h k) e in
      let g : B.get s h k ≡ some v = L.get_lem s h k ∙ ap value_of e in
      let (r, a, b) = then-ret rest _ (rw (c, g) at h') in (raw v, r, refl, a, sym (ret-inj b))
  entry_of-slot f s h k bucket rest {t} e p h' =
      let c : B.child s h k ≡ some (k ∷ h) = L.child_lem s h k ∙ ap (child_of h k) e in
      let (u, a, b) = then-ret (f (k ∷ h)) _ (rw c at h') in
      let (r, a', b') = then-ret rest _ b in (u, r, rw a, a', sym (ret-inj b'))

  entries_of-shown :
      (f : Handle → Outcome Tree) (s : B.State) (h : Handle) (ks : List Bytes) {t : Tree}
      (n : Bytes)
      → ((k : Bytes) → listed k ks ≡ true → is_present (slot s h k) ≡ true)
      → entries_of B f s h ks ≡ ret t
      → (if listed n ks then shown (f (n ∷ h)) (slot s h n) else ret none) ≡ ret (entry_at n t)
  unfolding entries_of entry_at
  entries_of-shown f s h [] n p e = ap (λ x. ret (entry_at n x)) (ret-inj e)
  entries_of-shown f s h (k ∷ ks) n p e =
      let (u, r, here, more, same) =
        entry_of-slot f s h k (slot s h k) (entries_of B f s h ks) refl
          (p k (rw ((eqb_iff k k).1 refl))) e in
      let ih =
        entries_of-shown f s h ks n
          (λ j l. p j (elim (Bool-cases (eqb k j)) [ inl y ↦ rw y | inr y ↦ rw (y, l) ])) more in
      subst
        (λ x.
          (if listed n (k ∷ ks) then shown (f (n ∷ h)) (slot s h n) else ret none)
          ≡ ret (entry_at n x))
        (sym same)
        (elim (Bool-cases (eqb k n)) [
          | inl y ↦
              let j : k ≡ n = (eqb_iff k n).0 y in
              rw y (subst (λ x. shown (f (x ∷ h)) (slot s h x) ≡ ret (some u)) j here)
          | inr y ↦ rw y ih
        ])

  absent_slot : (w : Slot) → is_present w ≡ false → w ≡ absent
  absent_slot absent e = refl
  absent_slot (stored v) e = cc
  absent_slot bucket e = cc

  -- The tree of a bucket has under each name what the slot of the name holds.
  enumerate_bucket-shown :
      (depth : ℕ) (s : B.State) (h : Handle) {t : Tree} (n : Bytes)
      → enumerate_bucket B (suc depth) s h ≡ ret t
      → shown (enumerate_bucket B depth s (n ∷ h)) (slot s h n) ≡ ret (entry_at n t)
  unfolding enumerate_bucket
  enumerate_bucket-shown depth s h n e =
      let k =
        entries_of-shown (enumerate_bucket B depth s) s h (B.keys s h) n
          (λ j l. sym (L.listed-keys s h j) ∙ l) e in
      elim (Bool-cases (is_present (slot s h n))) [
        | inl p ↦ rw (L.listed-keys, p) at k
        | inr p ↦ rw (absent_slot (slot s h n) p) (rw (L.listed-keys, p) at k)
      ]

  entry_of-map :
      (f : Handle → Outcome Tree) (k v : Bytes) (o : Option Handle) (rest : Outcome Tree) {t : Tree}
      → entry_of f k v o rest ≡ ret t
      → raw_of (some t) ≡ none
  entry_of-map f k v none rest e =
      let (r, _, b) = then-ret rest _ e in ap (λ x. raw_of (some x)) (sym (ret-inj b))
  entry_of-map f k v (some h) rest e =
      let (u, _, b) = then-ret (f h) _ e in
      let (r, _, c) = then-ret rest _ b in ap (λ x. raw_of (some x)) (sym (ret-inj c))

  entries_of-map :
      (f : Handle → Outcome Tree) (s : B.State) (h : Handle) (ks : List Bytes) {t : Tree}
      → entries_of B f s h ks ≡ ret t
      → raw_of (some t) ≡ none
  unfolding entries_of
  entries_of-map f s h [] e = ap (λ x. raw_of (some x)) (sym (ret-inj e))
  entries_of-map f s h (k ∷ ks) e = entry_of-map f k _ (B.child s h k) (entries_of B f s h ks) e

  enumerate_bucket-map :
      (depth : ℕ) (s : B.State) (h : Handle) {t : Tree}
      → enumerate_bucket B depth s h ≡ ret t
      → raw_of (some t) ≡ none
  unfolding enumerate_bucket
  enumerate_bucket-map zero s h e = absurd (cc)
  enumerate_bucket-map (suc depth) s h e =
      entries_of-map (enumerate_bucket B depth s) s h (B.keys s h) e

  no_depth : (s : B.State) (h : Handle) {t : Tree} → enumerate_bucket B zero s h ≡ ret t → ⊥
  unfolding enumerate_bucket
  no_depth s h e = cc

  slot-raw_of :
      (depth : ℕ) (s : B.State) (h : Handle) (w : Slot) {o : Option Tree} {v : Bytes}
      → shown (enumerate_bucket B depth s h) w ≡ ret o
      → (raw_of o ≡ some v) ↔ (w ≡ stored v)
  slot-raw_of depth s h absent e = ((λ a. absurd (cc (ap raw_of (ret-inj e), a))), λ a. absurd (cc))
  slot-raw_of depth s h (stored x) e =
      let k : some x ≡ raw_of _ = ap raw_of (ret-inj e) in ((λ a. cc (k, a)), λ a. cc (k, a))
  slot-raw_of depth s h bucket e =
      let (t, a, b) = then-ret (enumerate_bucket B depth s h) _ e in
      let k = ap raw_of (ret-inj b) in
      ((λ c. absurd (cc (k, c, enumerate_bucket-map depth s h a))), λ c. absurd (cc))

  value_at-raw : (bs : List Bytes) (k v : Bytes) → value_at bs k (raw v) ≡ none
  unfolding value_at entry_at
  value_at-raw [] k v = refl
  value_at-raw (b ∷ bs) k v = refl

  value_at-cons :
      (b : Bytes) (bs : List Bytes) (k : Bytes) (t : Tree) {o : Option Tree}
      → o ≡ entry_at b t
      → value_at (b ∷ bs) k t ≡ (elim o [ none ↦ none | some u ↦ value_at bs k u ])
  unfolding value_at
  value_at-cons b bs k t e = rw e

  -- One step down the chain.
  value_at-down :
      (depth : ℕ) (s : B.State) (h : Handle) (b : Bytes) (bs : List Bytes) (k : Bytes) (w : Slot)
      (t : Tree) (v : Bytes)
      → ((u : Tree)
          → enumerate_bucket B depth s (b ∷ h) ≡ ret u
          → (value_at bs k u ≡ some v)
            ↔ (IsChain B L s (b ∷ h) bs × (slot s (extend (b ∷ h) bs) k ≡ stored v)))
      → slot s h b ≡ w
      → shown (enumerate_bucket B depth s (b ∷ h)) w ≡ ret (entry_at b t)
      → (value_at (b ∷ bs) k t ≡ some v)
        ↔ (IsChain B L s h (b ∷ bs) × (slot s (extend h (b ∷ bs)) k ≡ stored v))
  value_at-down depth s h b bs k absent t v ih e f =
      let z = value_at-cons b bs k t (ret-inj f) in
      ((λ a. absurd (cc (z, a))), λ ((c, _), _). absurd (cc (c, e)))
  value_at-down depth s h b bs k (stored x) t v ih e f =
      let z = value_at-cons b bs k t (ret-inj f) ∙ value_at-raw bs k x in
      ((λ a. absurd (cc (z, a))), λ ((c, _), _). absurd (cc (c, e)))
  value_at-down depth s h b bs k bucket t v ih e f =
      let (u, made, g) = then-ret (enumerate_bucket B depth s (b ∷ h)) _ f in
      let z = value_at-cons b bs k t (ret-inj g) in
      let (to, from) = ih u made in
      ((λ a. let (c, d) = to (sym z ∙ a) in ((e, c), d)), λ ((_, c), d). z ∙ from (c, d))

  -- The tree that enumerateBucket gives for a bucket has, at the end of a chain of names, exactly the
  -- value that the store has there, and none where the chain is not one of buckets or its end holds
  -- no value.
  pub value_at-enumerate_bucket_iff :
      (depth : ℕ) (s : B.State) (h : Handle) (bs : List Bytes) (k : Bytes) {t : Tree} {v : Bytes}
      → enumerate_bucket B depth s h ≡ ret t
      → (value_at bs k t ≡ some v) ↔ (IsChain B L s h bs × (slot s (extend h bs) k ≡ stored v))
  unfolding value_at
  value_at-enumerate_bucket_iff zero s h bs k e = absurd (no_depth s h e)
  value_at-enumerate_bucket_iff (suc depth) s h [] k {t} {v} e =
      let (to, from) =
        slot-raw_of depth s (k ∷ h) (slot s h k) {o = entry_at k t} {v = v}
          (enumerate_bucket-shown depth s h k e) in
      ((λ a. (tt, to a)), λ (_, b). from b)
  value_at-enumerate_bucket_iff (suc depth) s h (b ∷ bs) k {t} {v} e =
      value_at-down depth s h b bs k (slot s h b) t v
        (λ u made. value_at-enumerate_bucket_iff depth s (b ∷ h) bs k made) refl
        (enumerate_bucket-shown depth s h b e)

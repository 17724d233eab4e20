-- ===== src/Kv/Walk.antt =====
-- How getBuckets moves through the store.
use cave.Base.{
  ◌≡◌, ◌≢◌, refl, sym, ◌∙◌, subst, inl, inr, true, false, Option, none, some, List, [], ◌∷◌, Bytes,
  eqb_iff, path_eqb_iff, arith, Outcome, ret, fail, panic, Bool-cases, Outcome-cases, Option-cases,
}
use cave.Bolt.{
  Handle, Slot, absent, stored, bucket, Bolt, IsBolt, create_slot, as_handle, same_place,
}
use cave.Kv.{walk}

-- The bucket at the end of the chain of names that starts in `h`.
abbrev pub extend : Handle → List Bytes → Handle
extend h [] = h
extend h (b ∷ bs) = extend (b ∷ h) bs

abbrev pub last_name : Bytes → List Bytes → Bytes
last_name name [] = name
last_name name (b ∷ bs) = last_name b bs

pub same_place_sound :
    (p : Handle) (n : Bytes) (q : Handle) (m : Bytes)
    → same_place p n q m ≡ true
    → (p ≡ q) × (n ≡ m)
same_place_sound p n q m h = ((path_eqb_iff p q).0 (ground arith), (eqb_iff n m).0 (ground arith))

pub same_place_refl : (p : Handle) (n : Bytes) → same_place p n p n ≡ true
same_place_refl p n = rw ((path_eqb_iff p p).1 refl, (eqb_iff n n).1 refl)

module _ (B : Bolt) (L : IsBolt B) where
  open L use {slot}

  -- Every bucket of the chain is there.
  abbrev pub IsChain : B.State → Handle → List Bytes → Type 0
  IsChain s h [] = Unit
  IsChain s h (b ∷ bs) = (slot s h b ≡ bucket) × IsChain s (b ∷ h) bs

  -- From `s` to `t` every slot that held something still holds it.
  abbrev pub Grows : B.State → B.State → Type 0
  Grows s t = (q : Handle) (m : Bytes) → slot s q m ≢ absent → slot t q m ≡ slot s q m

  pub IsChain-grows :
      (s t : B.State) (h : Handle) (bs : List Bytes)
      → ((q : Handle) (m : Bytes) → slot s q m ≡ bucket → slot t q m ≡ bucket)
      → IsChain s h bs
      → IsChain t h bs
  IsChain-grows s t h [] g c = tt
  IsChain-grows s t h (b ∷ bs) g (e, c) = (g h b e, IsChain-grows s t (b ∷ h) bs g c)

  pub child-inv :
      (s : B.State) (p : Handle) (n : Bytes) {h : Handle}
      → B.child s p n ≡ some h
      → (slot s p n ≡ bucket) × (h ≡ n ∷ p)
  child-inv s p n e = let k = L.child_lem s p n in ground arith

  pub child-bucket :
      (s : B.State) (h : Handle) (b : Bytes) → slot s h b ≡ bucket → B.child s h b ≡ some (b ∷ h)
  child-bucket s h b e = L.child_lem s h b ∙ rw e

  pub walk_read :
      (s : B.State) (h : Handle) (bs : List Bytes) (name : Bytes)
      → IsChain s h bs
      → walk B false bs (some h) name s ≡ (ret (some (extend h bs), last_name name bs), s)
  unfolding walk
  walk_read s h [] name c = refl
  walk_read s h (b ∷ bs) name (e, c) = rw (child-bucket s h b e, walk) (walk_read s (b ∷ h) bs b c)

  create_slot-ok :
      (n : Bytes) (w : Slot) (u : Unit {0})
      → (create_slot n w).0 ≡ ret u
      → (create_slot n w).1 ≡ bucket
  create_slot-ok [] w u e = cc
  create_slot-ok (c ∷ n) absent u e = refl
  create_slot-ok (c ∷ n) (stored v) u e = cc
  create_slot-ok (c ∷ n) bucket u e = refl

  create_slot-keeps : (n : Bytes) (w : Slot) → w ≢ absent → (create_slot n w).1 ≡ w
  create_slot-keeps [] w h = refl
  create_slot-keeps (c ∷ n) absent h = absurd (h refl)
  create_slot-keeps (c ∷ n) (stored v) h = refl
  create_slot-keeps (c ∷ n) bucket h = refl

  pub create-Grows : (p : Handle) (n : Bytes) (s : B.State) → Grows s (B.create p n s).1
  create-Grows p n s q m h = elim (Bool-cases (same_place p n q m)) [
    | inl same ↦
        let (e, f) = same_place_sound p n q m same in
        rw (L.slot-create, same, e, f) (create_slot-keeps m (slot s q m) h)
    | inr other ↦ rw (L.slot-create, other)
  ]

  as_handle-ret :
      (h : Handle) (o : Outcome (Unit {0})) {h' : Handle}
      → as_handle h o ≡ ret h'
      → (h' ≡ h) × (u : Unit {0}) × (o ≡ ret u)
  as_handle-ret h (ret u) e = (cc, u, refl)
  as_handle-ret h (fail e') e = cc
  as_handle-ret h panic e = cc

  -- A bucket that was created is there, and is the handle that comes back.
  pub create-ok :
      (p : Handle) (n : Bytes) (s : B.State) {h : Handle}
      → (B.create p n s).0 ≡ ret h
      → (h ≡ n ∷ p) × (slot (B.create p n s).1 p n ≡ bucket)
  create-ok p n s {h} r =
      let (e, u, f) =
        as_handle-ret (n ∷ p) (create_slot n (slot s p n)).0 (sym (L.create_lem p n s) ∙ r) in
      (e, rw (L.slot-create, same_place_refl p n) (create_slot-ok n (slot s p n) u f))

  pub walk_create-Grows :
      (s : B.State) (h : Handle) (bs : List Bytes) (name : Bytes)
      → Grows s (walk B true bs (some h) name s).1
  unfolding walk
  walk_create-Grows s h [] name q m g = refl
  walk_create-Grows s h (b ∷ bs) name q m g = elim (Outcome-cases (B.create h b s).0) [
    | inl (h', c) ↦
        let first : slot (B.create h b s).1 q m ≡ slot s q m = create-Grows h b s q m g in
        rw c (walk_create-Grows (B.create h b s).1 h' bs b q m (rw first g) ∙ first)
    | inr (inl (x, c)) ↦ rw c (create-Grows h b s q m g)
    | inr (inr c) ↦ rw c (create-Grows h b s q m g)
  ]

  -- One round of the loop: creating the bucket succeeded, as it did if the whole walk does.
  pub walk-round :
      (s : B.State) (h : Handle) (b : Bytes) (bs : List Bytes) (name : Bytes)
      {r : Option Handle × Bytes}
      → (walk B true (b ∷ bs) (some h) name s).0 ≡ ret r
      → (slot (B.create h b s).1 h b ≡ bucket)
        × (walk B true (b ∷ bs) (some h) name s
            ≡ walk B true bs (some (b ∷ h)) b (B.create h b s).1)
  unfolding walk
  walk-round s h b bs name e = elim (Outcome-cases (B.create h b s).0) [
    | inl (h', c) ↦ let (same, made) = create-ok h b s c in (made, rw (c, same))
    | inr (inl (x, c)) ↦ absurd (cc (rw c at e))
    | inr (inr c) ↦ absurd (cc (rw c at e))
  ]

  -- A walk that creates buckets and succeeds has reached the end of its chain.
  pub walk_create :
      (s : B.State) (h : Handle) (bs : List Bytes) (name : Bytes) {r : Option Handle × Bytes}
      → (walk B true bs (some h) name s).0 ≡ ret r
      → (r.0 ≡ some (extend h bs)) × IsChain (walk B true bs (some h) name s).1 h bs
  walk_create s h [] name {r} e = unfold walk in (ground arith, tt)
  walk_create s h (b ∷ bs) name {r} e =
      let (made, step) = walk-round s h b bs name e in
      let (end, chain) = walk_create (B.create h b s).1 (b ∷ h) bs b (rw step at e) in
      let grown = walk_create-Grows (B.create h b s).1 (b ∷ h) bs b in
      (
        end,
        (
          rw step (grown h b (rw made (λ x. cc)) ∙ made),
          subst (λ (w : Outcome (Option Handle × Bytes) × B.State). IsChain w.1 (b ∷ h) bs)
              (sym step) chain,
        ),
      )

  -- A walk that only reads and succeeds has found every bucket of its chain.
  pub walk_read-inv :
      (s : B.State) (h : Handle) (bs : List Bytes) (name : Bytes) {r : Option Handle × Bytes}
      → (walk B false bs (some h) name s).0 ≡ ret r
      → (r.0 ≡ some (extend h bs)) × IsChain s h bs
  unfolding walk
  walk_read-inv s h [] name e = (ground arith, tt)
  walk_read-inv s h (b ∷ bs) name e = elim (Option-cases (B.child s h b)) [
    | inl c ↦ absurd (cc (rw (c, walk) at e))
    | inr (h', c) ↦
        let (there, same) = child-inv s h b c in
        let c' : B.child s h b ≡ some (b ∷ h) = rw same at c in
        let (end, chain) = walk_read-inv s (b ∷ h) bs b (rw (c', walk) at e) in
        (end, (there, chain))
  ]

  pub walk_read-state :
      (s : B.State) (bs : List Bytes) (o : Option Handle) (name : Bytes)
      → (walk B false bs o name s).1 ≡ s
  unfolding walk
  walk_read-state s [] o name = refl
  walk_read-state s (b ∷ bs) none name = refl
  walk_read-state s (b ∷ bs) (some h) name = elim (Option-cases (B.child s h b)) [
    | inl c ↦ rw (c, walk)
    | inr (h', c) ↦ rw (c, walk) (walk_read-state s bs (some h') b)
  ]

-- ===== src/Kv/PutIn.antt =====
-- The transaction of PutObject: what the store holds after it.
use cave.Base.{
  ◌≡◌, ◌≢◌, sym, ◌∙◌, inl, inr, true, false, Option, none, some, List, [], ◌∷◌, Bytes, arith,
  Outcome, ret, fail, panic, Outcome-cases, Option-cases, Bool-cases,
}
use cave.Bolt.{Handle, Slot, absent, stored, bucket, Bolt, IsBolt, same_place, put_slot}
use cave.Kv.{walk, put_in, get_in}
use cave.Kv.Walk.{
  extend, IsChain, Grows, IsChain-grows, child-inv, child-bucket, walk_read, walk_create,
  walk_create-Grows, same_place_refl, same_place_sound,
}

put_slot-stored :
    (n v : Bytes) (w : Slot) {u : Unit {0}}
    → (put_slot n v w).0 ≡ ret u
    → ((put_slot n v w).1 ≡ stored v) × (w ≢ bucket)
put_slot-stored [] v w h = cc
put_slot-stored (c ∷ n) v absent h = ground arith
put_slot-stored (c ∷ n) v _ h = ground arith

module _ (B : Bolt) (L : IsBolt B) where
  open L use {slot}

  -- The walk that a put makes below its prefix.
  abbrev pub made : List Bytes → Bytes → B.State → Outcome (Option Handle × Bytes) × B.State
  made buckets prefix s = walk B true buckets (some (prefix ∷ [])) prefix s

  -- Without the bucket of the prefix the nil bucket is used.
  pub put_in-nil :
      (buckets : List Bytes) (k prefix bobj : Bytes) (s : B.State)
      → B.child s [] prefix ≡ none
      → put_in B buckets k prefix bobj s ≡ (panic, s)
  unfolding put_in
  put_in-nil [] k prefix bobj s c = rw c
  put_in-nil (b ∷ bs) k prefix bobj s c = rw c

  -- A transaction that succeeds walked to the bucket and put the value there.
  pub put_in-round :
      (buckets : List Bytes) (k prefix bobj : Bytes) (s : B.State) {u : Unit {0}}
      → (put_in B buckets k prefix bobj s).0 ≡ ret u
      → (slot s [] prefix ≡ bucket)
        × (r : Option Handle × Bytes) × ((made buckets prefix s).0 ≡ ret r)
        × (put_in B buckets k prefix bobj s
            ≡ B.put (extend (prefix ∷ []) buckets) k bobj (made buckets prefix s).1)
  put_in-round buckets k prefix bobj s e = elim (Option-cases (B.child s [] prefix)) [
    | inl c ↦ absurd (cc (rw (put_in-nil buckets k prefix bobj s c) at e))
    | inr (h, c) ↦
        let (there, same) = child-inv B L s [] prefix c in
        let c' : B.child s [] prefix ≡ some (prefix ∷ []) = rw same at c in
        elim (Outcome-cases (made buckets prefix s).0) [
          | inl (r, w) ↦
              let (end, _) = walk_create B L s (prefix ∷ []) buckets prefix w in
              (there, r, w, unfold put_in in rw (c', w, end))
          | inr (inl (x, w)) ↦
              let k' : put_in B buckets k prefix bobj s ≡ (fail x, (made buckets prefix s).1) =
                unfold put_in in rw (c', w) in
              absurd (cc (rw k' at e))
          | inr (inr w) ↦
              let k' : put_in B buckets k prefix bobj s ≡ (panic, (made buckets prefix s).1) =
                unfold put_in in rw (c', w) in
              absurd (cc (rw k' at e))
        ]
  ]

  -- What a put leads to: the value is stored, under buckets that are all there, and every other slot
  -- that held something holds it still.
  pub record PutDone (buckets : List Bytes) (k prefix bobj : Bytes) (s t : B.State) : Type 0 where
    pub value : slot t (extend (prefix ∷ []) buckets) k ≡ stored bobj
    pub chain : IsChain B L t (prefix ∷ []) buckets
    pub root : slot t [] prefix ≡ bucket
    pub buckets_kept : (q : Handle) (m : Bytes) → slot s q m ≡ bucket → slot t q m ≡ bucket
    pub frame :
        (q : Handle) (m : Bytes)
        → slot s q m ≢ absent
        → same_place (extend (prefix ∷ []) buckets) k q m ≡ false
        → slot t q m ≡ slot s q m

  put-value :
      (p : Handle) (k v : Bytes) (s : B.State) {u : Unit {0}}
      → (B.put p k v s).0 ≡ ret u
      → (slot (B.put p k v s).1 p k ≡ stored v) × (slot s p k ≢ bucket)
  put-value p k v s e =
      let (a, b) = put_slot-stored k v (slot s p k) (sym (L.put_lem p k v s) ∙ e) in
      (rw (L.slot-put, same_place_refl p k) a, b)

  pub put-keeps :
      (p : Handle) (k v : Bytes) (s : B.State) (q : Handle) (m : Bytes)
      → same_place p k q m ≡ false
      → slot (B.put p k v s).1 q m ≡ slot s q m
  put-keeps p k v s q m h = rw (L.slot-put, h)

  pub put-buckets :
      (p : Handle) (k v : Bytes) (s : B.State) {u : Unit {0}}
      → (B.put p k v s).0 ≡ ret u
      → (q : Handle) (m : Bytes) → slot s q m ≡ bucket
      → slot (B.put p k v s).1 q m ≡ bucket
  put-buckets p k v s e q m b = elim (Bool-cases (same_place p k q m)) [
    | inl same ↦
        let (f, g) = same_place_sound p k q m same in absurd ((put-value p k v s e).1 (rw (f, g) b))
    | inr other ↦ put-keeps p k v s q m other ∙ b
  ]

  pub put_in_lem :
      (buckets : List Bytes) (k prefix bobj : Bytes) (s : B.State) {u : Unit {0}}
      → (put_in B buckets k prefix bobj s).0 ≡ ret u
      → PutDone buckets k prefix bobj s (put_in B buckets k prefix bobj s).1
  put_in_lem buckets k prefix bobj s e =
      let (there, r, w, step) = put_in-round buckets k prefix bobj s e in
      let (_, chain) = walk_create B L s (prefix ∷ []) buckets prefix w in
      let p = extend (prefix ∷ []) buckets in
      let mid = (made buckets prefix s).1 in
      let grown : Grows B L s mid = walk_create-Grows B L s (prefix ∷ []) buckets prefix in
      let e' = rw step at e in
      let there' : slot mid [] prefix ≡ bucket = grown [] prefix (rw there (λ x. cc)) ∙ there in
      rw step (record {
        value = (put-value p k bobj mid e').0;
        chain = IsChain-grows B L mid _ (prefix ∷ []) buckets (put-buckets p k bobj mid e') chain;
        root = put-buckets p k bobj mid e' [] prefix there';
        buckets_kept = λ q m b. put-buckets p k bobj mid e' q m (grown q m (rw b (λ x. cc)) ∙ b);
        frame = λ q m h o. put-keeps p k bobj mid q m o ∙ grown q m h;
      })

  -- A value below a chain of buckets that are there is read.
  pub get_in_stored :
      (buckets : List Bytes) (k prefix v : Bytes) (s : B.State)
      → slot s [] prefix ≡ bucket
      → IsChain B L s (prefix ∷ []) buckets
      → slot s (extend (prefix ∷ []) buckets) k ≡ stored v
      → get_in B buckets k prefix s ≡ ret v
  unfolding get_in
  get_in_stored buckets k prefix v s r c e =
      rw (
        child-bucket B L s [] prefix r,
        walk_read B L s (prefix ∷ []) buckets prefix c,
        L.get_lem,
        e,
      )

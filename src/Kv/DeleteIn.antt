-- ===== src/Kv/DeleteIn.antt =====
-- The transactions of DeleteKey and DeleteBucket: what the store holds after them.
use cave.Base.{
  ◌≡◌, ◌≢◌, refl, sym, ◌∙◌, ap, ◌⊎◌, inl, inr, false, none, some, List, [], ◌∷◌, Bytes, arith, Err,
  Outcome, ret, fail, panic, Exec, ◌>>=◌, lift, Outcome-cases, Option-cases, Bool-cases,
}
use cave.Bolt.{
  Handle, Slot, absent, stored, bucket, Bolt, IsBolt, same_place, delete_slot, delete_bucket_slot,
}
use cave.Bolt.Transactions.{update_of_fail, update_of_panic}
use cave.Kv.{walk, get_buckets, delete_in, delete_bucket_in, get_in, deref}
use cave.Kv.Walk.{
  extend, IsChain, IsChain-grows, child-inv, child-bucket, walk_read, walk_read-inv,
  walk_read-state, same_place_refl, same_place_sound,
}

delete_slot-ok :
    (w : Slot) {u : Unit {0}}
    → (delete_slot w).0 ≡ ret u
    → ((delete_slot w).1 ≡ absent) × (w ≢ bucket)
delete_slot-ok absent h = ground arith
delete_slot-ok (stored v) h = ground arith
delete_slot-ok bucket h = cc

module _ (B : Bolt) (L : IsBolt B) where
  open L use {slot}

  -- An operation in the bucket that getBuckets finds, as both deletions make it.
  pub at_bucket : (Handle → Exec B.State (Unit {0})) → List Bytes → Bytes → Exec B.State (Unit {0})
  at_bucket op buckets prefix = do
    (b, _) ← get_buckets B buckets prefix false
    h ← lift (deref b)
    op h

  at_bucket-nil :
      (op : Handle → Exec B.State (Unit {0})) (bs : List Bytes) (prefix : Bytes) (s : B.State)
      → B.child s [] prefix ≡ none
      → at_bucket op bs prefix s ≡ (panic, s)
  unfolding at_bucket get_buckets
  at_bucket-nil op [] prefix s c = rw c
  at_bucket-nil op (b ∷ bs) prefix s c = rw c

  -- Either the bucket is there and the operation runs in it, or nothing happens.
  pub at_bucket-cases :
      (op : Handle → Exec B.State (Unit {0})) (buckets : List Bytes) (prefix : Bytes) (s : B.State)
      → ((slot s [] prefix ≡ bucket)
          × IsChain B L s (prefix ∷ []) buckets
          × (at_bucket op buckets prefix s ≡ op (extend (prefix ∷ []) buckets) s))
        ⊎ (((x : Err) × (at_bucket op buckets prefix s ≡ (fail x, s)))
            ⊎ (at_bucket op buckets prefix s ≡ (panic, s)))
  at_bucket-cases op buckets prefix s = elim (Option-cases (B.child s [] prefix)) [
    | inl c ↦ inr (inr (at_bucket-nil op buckets prefix s c))
    | inr (h, c) ↦
        let (there, same) = child-inv B L s [] prefix c in
        let c' : B.child s [] prefix ≡ some (prefix ∷ []) = rw same at c in
        let kept = walk_read-state B L s buckets (some (prefix ∷ [])) prefix in
        elim (Outcome-cases (walk B false buckets (some (prefix ∷ [])) prefix s).0) [
          | inl (r, w) ↦
              let (end, chain) = walk_read-inv B L s (prefix ∷ []) buckets prefix w in
              inl (there, chain, unfold at_bucket get_buckets in rw (c', w, end, kept))
          | inr (inl (x, w)) ↦ inr (inl (x, unfold at_bucket get_buckets in rw (c', w, kept)))
          | inr (inr w) ↦ inr (inr (unfold at_bucket get_buckets in rw (c', w, kept)))
        ]
  ]

  pub delete_in-at_bucket :
      (buckets : List Bytes) (k prefix : Bytes)
      → delete_in B buckets k prefix ≡ at_bucket (λ h. B.delete h k) buckets prefix
  unfolding delete_in at_bucket
  delete_in-at_bucket buckets k prefix = refl

  pub delete_bucket_in-at_bucket :
      (buckets : List Bytes) (k prefix : Bytes)
      → delete_bucket_in B buckets k prefix ≡ at_bucket (λ h. B.delete_bucket h k) buckets prefix
  unfolding delete_bucket_in at_bucket
  delete_bucket_in-at_bucket buckets k prefix = refl

  -- What a deletion leads to: the key is gone, its buckets are there, and every other slot is kept.
  pub record DeleteDone (buckets : List Bytes) (k prefix : Bytes) (s t : B.State) : Type 0 where
    pub gone : slot t (extend (prefix ∷ []) buckets) k ≡ absent
    pub chain : IsChain B L t (prefix ∷ []) buckets
    pub root : slot t [] prefix ≡ bucket
    pub buckets_kept : (q : Handle) (m : Bytes) → slot s q m ≡ bucket → slot t q m ≡ bucket
    pub frame :
        (q : Handle) (m : Bytes)
        → same_place (extend (prefix ∷ []) buckets) k q m ≡ false
        → slot t q m ≡ slot s q m

  delete-gone :
      (p : Handle) (k : Bytes) (s : B.State) {u : Unit {0}}
      → (B.delete p k s).0 ≡ ret u
      → (slot (B.delete p k s).1 p k ≡ absent) × (slot s p k ≢ bucket)
  delete-gone p k s e =
      let (a, b) = delete_slot-ok (slot s p k) (sym (L.delete_lem p k s) ∙ e) in
      (rw (L.slot-delete, same_place_refl p k) a, b)

  delete-keeps :
      (p : Handle) (k : Bytes) (s : B.State) (q : Handle) (m : Bytes)
      → same_place p k q m ≡ false
      → slot (B.delete p k s).1 q m ≡ slot s q m
  delete-keeps p k s q m h = rw (L.slot-delete, h)

  delete-buckets :
      (p : Handle) (k : Bytes) (s : B.State) {u : Unit {0}}
      → (B.delete p k s).0 ≡ ret u
      → (q : Handle) (m : Bytes) → slot s q m ≡ bucket
      → slot (B.delete p k s).1 q m ≡ bucket
  delete-buckets p k s e q m b = elim (Bool-cases (same_place p k q m)) [
    | inl same ↦
        let (f, g) = same_place_sound p k q m same in absurd ((delete-gone p k s e).1 (rw (f, g) b))
    | inr other ↦ delete-keeps p k s q m other ∙ b
  ]

  pub delete_in_lem :
      (buckets : List Bytes) (k prefix : Bytes) (s : B.State) {u : Unit {0}}
      → (delete_in B buckets k prefix s).0 ≡ ret u
      → DeleteDone buckets k prefix s (delete_in B buckets k prefix s).1
  delete_in_lem buckets k prefix s e =
      let p = extend (prefix ∷ []) buckets in
      let e' = rw (delete_in-at_bucket buckets k prefix) at e in
      elim (at_bucket-cases (λ h. B.delete h k) buckets prefix s) [
        | inl (there, chain, step) ↦
            let e'' : (B.delete p k s).0 ≡ ret _ = rw step at e' in
            rw (delete_in-at_bucket, step)
              (record {
                gone = (delete-gone p k s e'').0;
                chain =
                    IsChain-grows B L s _ (prefix ∷ []) buckets (delete-buckets p k s e'') chain;
                root = delete-buckets p k s e'' [] prefix there;
                buckets_kept = delete-buckets p k s e'';
                frame = delete-keeps p k s;
              })
        | inr (inl (x, step)) ↦ absurd (cc (rw step at e'))
        | inr (inr step) ↦ absurd (cc (rw step at e'))
      ]

  pub get_in_absent :
      (buckets : List Bytes) (k prefix : Bytes) (s : B.State)
      → slot s [] prefix ≡ bucket
      → IsChain B L s (prefix ∷ []) buckets
      → slot s (extend (prefix ∷ []) buckets) k ≡ absent
      → get_in B buckets k prefix s ≡ ret []
  unfolding get_in
  get_in_absent buckets k prefix s r c e =
      rw (
        child-bucket B L s [] prefix r,
        walk_read B L s (prefix ∷ []) buckets prefix c,
        L.get_lem,
        e,
      )

  -- The empty name is never a bucket: this transaction cannot succeed, and changes nothing.
  pub delete_bucket_in_nil :
      (buckets : List Bytes) (prefix : Bytes) (s : B.State)
      → (B.update (delete_bucket_in B buckets [] prefix) s).1 ≡ s
  delete_bucket_in_nil buckets prefix s =
      let body = delete_bucket_in B buckets [] prefix in
      elim (Outcome-cases (body s).0) [
        | inl (u, e) ↦ absurd (never u e)
        | inr (inl (x, e)) ↦
            ap (λ (r : Outcome (Unit {0}) × B.State). r.1) (update_of_fail B L body s e)
        | inr (inr e) ↦
            ap (λ (r : Outcome (Unit {0}) × B.State). r.1) (update_of_panic B L body s e)
      ]
    where
      never : (u : Unit {0}) → (delete_bucket_in B buckets [] prefix s).0 ≡ ret u → ⊥
      never u e =
          let p = extend (prefix ∷ []) buckets in
          let e' = rw (delete_bucket_in-at_bucket buckets [] prefix) at e in
          elim (at_bucket-cases (λ h. B.delete_bucket h []) buckets prefix s) [
            | inl (there, chain, step) ↦
                cc (
                  rw step at e',
                  L.delete_bucket_lem p [] s,
                  ap delete_bucket_slot (L.slot-nil s p),
                )
            | inr (inl (x, step)) ↦ cc (rw step at e')
            | inr (inr step) ↦ cc (rw step at e')
          ]

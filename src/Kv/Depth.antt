-- ===== src/Kv/Depth.antt =====
-- How deep the buckets of the store nest under the transactions of the engine, and the bucket of the
-- prefix.
use cave.Base.{
  ℕ, suc, ◌+◌, ◌≤◌, ◌≡◌, refl, sym, ◌∙◌, subst, inl, inr, Bool, true, false, List, [], ◌∷◌, Bytes,
  length, arith, Outcome, ret, Option, some, path_eqb, Bool-cases, if◌then◌else◌,
}
use cave.Bolt.{Handle, Slot, absent, bucket, Bolt, IsBolt, same_place, delete_bucket_slot}
use cave.Kv.{walk, put_in, delete_in, delete_bucket_in}
use cave.Kv.PutIn.{made, put_in-round, put_in_lem, put-keeps}
use cave.Kv.DeleteIn.{delete_in_lem, at_bucket-cases, delete_bucket_in-at_bucket}
use cave.Kv.Shape.{delete_bucket_slot-ok}
use cave.Kv.Walk.{extend, walk-round, same_place_sound}

cleared :
    (x y : Bool) (w : Slot) → (if x then absent else if y then absent else w) ≡ bucket → w ≡ bucket
cleared true y w e = cc
cleared false true w e = cc
cleared false false w e = e

module _ (B : Bolt) (L : IsBolt B) where
  open L use {slot}

  -- No bucket nests deeper than `d`.
  abbrev pub IsShallow : ℕ → B.State → Type 0
  IsShallow d s = (p : Handle) (n : Bytes) → slot s p n ≡ bucket → suc (length p) ≤ d

  IsShallow-le : (d e : ℕ) (s : B.State) → d ≤ e → IsShallow d s → IsShallow e s
  IsShallow-le d e s le h p n b = let k = h p n b in omega arith

  -- A change that makes no bucket but at one place keeps a bound that the place keeps.
  IsShallow-change :
      (d : ℕ) (s t : B.State) (p : Handle) (n : Bytes)
      → suc (length p) ≤ d
      → ((q : Handle) (m : Bytes) → same_place p n q m ≡ false → slot t q m ≡ slot s q m)
      → IsShallow d s
      → IsShallow d t
  IsShallow-change d s t p n low frame h q m b = elim (Bool-cases (same_place p n q m)) [
    | inl same ↦ let (e, f) = same_place_sound p n q m same in subst (λ x. suc (length x) ≤ d) e low
    | inr other ↦ h q m (sym (frame q m other) ∙ b)
  ]

  walk_create-IsShallow :
      (d : ℕ) (s : B.State) (h : Handle) (bs : List Bytes) (name : Bytes)
      {r : Option Handle × Bytes}
      → (walk B true bs (some h) name s).0 ≡ ret r
      → length h + length bs ≤ d
      → IsShallow d s
      → IsShallow d (walk B true bs (some h) name s).1
  walk_create-IsShallow d s h [] name e low shallow = unfold walk in shallow
  walk_create-IsShallow d s h (b ∷ bs) name e low shallow =
      let (made, step) = walk-round B L s h b bs name e in
      subst (λ (w : Outcome (Option Handle × Bytes) × B.State). IsShallow d w.1) (sym step)
        (walk_create-IsShallow d (B.create h b s).1 (b ∷ h) bs b (rw step at e) (omega arith) (
          IsShallow-change d s (B.create h b s).1 h b (omega arith) (λ q m o. rw (L.slot-create, o))
            shallow))

  length-extend : (h : Handle) (bs : List Bytes) → length (extend h bs) ≡ length h + length bs
  length-extend h [] = omega arith
  length-extend h (b ∷ bs) = let k = length-extend (b ∷ h) bs in omega arith

  pub put_in-IsShallow :
      (buckets : List Bytes) (k prefix bobj : Bytes) (s : B.State) (d : ℕ) {u : Unit {0}}
      → (put_in B buckets k prefix bobj s).0 ≡ ret u
      → IsShallow d s
      → IsShallow (d + (2 + length buckets)) (put_in B buckets k prefix bobj s).1
  put_in-IsShallow buckets k prefix bobj s d e shallow =
      let (there, r, w, step) = put_in-round B L buckets k prefix bobj s e in
      let p = extend (prefix ∷ []) buckets in
      let mid = (made B L buckets prefix s).1 in
      let deep = d + (2 + length buckets) in
      let size = length-extend (prefix ∷ []) buckets in
      subst (λ (z : Outcome (Unit {0}) × B.State). IsShallow deep z.1) (sym step)
        (IsShallow-change deep mid (B.put p k bobj mid).1 p k (omega arith)
          (put-keeps B L p k bobj mid)
          (walk_create-IsShallow deep s (prefix ∷ []) buckets prefix w (omega arith)
            (IsShallow-le d deep s (omega arith) shallow)))

  pub delete_in-IsShallow :
      (buckets : List Bytes) (k prefix : Bytes) (s : B.State) (d : ℕ) {u : Unit {0}}
      → (delete_in B buckets k prefix s).0 ≡ ret u
      → IsShallow d s
      → IsShallow (d + (2 + length buckets)) (delete_in B buckets k prefix s).1
  delete_in-IsShallow buckets k prefix s d e shallow =
      let done = delete_in_lem B L buckets k prefix s e in
      let size = length-extend (prefix ∷ []) buckets in
      IsShallow-change (d + (2 + length buckets)) s _ (extend (prefix ∷ []) buckets) k (omega arith)
        done.frame (IsShallow-le d _ s (omega arith) shallow)

  delete_bucket-IsShallow :
      (p : Handle) (n : Bytes) (s : B.State) (d : ℕ)
      → slot s p n ≡ bucket
      → IsShallow d s
      → IsShallow d (B.delete_bucket p n s).1
  delete_bucket-IsShallow p n s d b shallow q m e =
      shallow q m (cleared _ _ _ (sym (L.slot-delete_bucket p n s q m b) ∙ e))

  extend-cons :
      (b : Bytes) (h : Handle) (bs : List Bytes)
      → (c : Bytes) × (q : Handle) × (extend (b ∷ h) bs ≡ c ∷ q)
  extend-cons b h [] = (b, h, refl)
  extend-cons b h (c ∷ bs) = extend-cons c (b ∷ h) bs

  -- Deleting a bucket below another one leaves the buckets of the transaction.
  delete_bucket-root :
      (c : Bytes) (q : Handle) (n : Bytes) (s : B.State) (m : Bytes)
      → slot s (c ∷ q) n ≡ bucket
      → slot s [] m ≡ bucket
      → slot (B.delete_bucket (c ∷ q) n s).1 [] m ≡ bucket
  unfolding path_eqb
  delete_bucket-root c q n s m b root = L.slot-delete_bucket (c ∷ q) n s [] m b ∙ root

  -- The bucket of the prefix is there, and the buckets nest within some bound.
  abbrev pub HasRoom : Bytes → B.State → Type 0
  HasRoom root s = (slot s [] root ≡ bucket) × (d : ℕ) × IsShallow d s

  pub put_in-HasRoom :
      (root : Bytes) (buckets : List Bytes) (k prefix bobj : Bytes) (s : B.State) {u : Unit {0}}
      → (put_in B buckets k prefix bobj s).0 ≡ ret u
      → HasRoom root s
      → HasRoom root (put_in B buckets k prefix bobj s).1
  put_in-HasRoom root buckets k prefix bobj s e (r, d, shallow) =
      let done = put_in_lem B L buckets k prefix bobj s e in
      (
        done.buckets_kept [] root r,
        d + (2 + length buckets),
        put_in-IsShallow buckets k prefix bobj s d e shallow,
      )

  pub delete_in-HasRoom :
      (root : Bytes) (buckets : List Bytes) (k prefix : Bytes) (s : B.State) {u : Unit {0}}
      → (delete_in B buckets k prefix s).0 ≡ ret u
      → HasRoom root s
      → HasRoom root (delete_in B buckets k prefix s).1
  delete_in-HasRoom root buckets k prefix s e (r, d, shallow) =
      let done = delete_in_lem B L buckets k prefix s e in
      (
        done.buckets_kept [] root r,
        d + (2 + length buckets),
        delete_in-IsShallow buckets k prefix s d e shallow,
      )

  delete_bucket-HasRoom :
      (root : Bytes) (p : Handle) (c : Bytes) (q : Handle) (n : Bytes) (s : B.State)
      → c ∷ q ≡ p
      → slot s p n ≡ bucket
      → HasRoom root s
      → HasRoom root (B.delete_bucket p n s).1
  delete_bucket-HasRoom root p c q n s same b (r, d, shallow) =
      let b' : slot s (c ∷ q) n ≡ bucket = subst (λ x. slot s x n ≡ bucket) (sym same) b in
      (
        subst (λ x. slot (B.delete_bucket x n s).1 [] root ≡ bucket) same
            (delete_bucket-root c q n s root b' r),
        d,
        delete_bucket-IsShallow p n s d b shallow,
      )

  pub delete_bucket_in-HasRoom :
      (root : Bytes) (buckets : List Bytes) (k prefix : Bytes) (s : B.State) {u : Unit {0}}
      → (delete_bucket_in B buckets k prefix s).0 ≡ ret u
      → HasRoom root s
      → HasRoom root (delete_bucket_in B buckets k prefix s).1
  delete_bucket_in-HasRoom root buckets k prefix s e room =
      let p = extend (prefix ∷ []) buckets in
      let (c, q, same) = extend-cons prefix [] buckets in
      let e' = rw (delete_bucket_in-at_bucket B L buckets k prefix) at e in
      elim (at_bucket-cases B L (λ h. B.delete_bucket h k) buckets prefix s) [
        | inl (there, chain, step) ↦
            let done : delete_bucket_slot (slot s p k) ≡ ret _ =
              sym (L.delete_bucket_lem p k s) ∙ (rw step at e') in
            rw (delete_bucket_in-at_bucket B L buckets k prefix) (
              subst (λ (z : Outcome (Unit {0}) × B.State). HasRoom root z.1) (sym step)
                (delete_bucket-HasRoom root p c q k s (sym same)
                  (delete_bucket_slot-ok (slot s p k) done) room))
        | inr (inl (x, step)) ↦ absurd (cc (rw step at e'))
        | inr (inr step) ↦ absurd (cc (rw step at e'))
      ]

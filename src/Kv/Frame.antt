-- ===== src/Kv/Frame.antt =====
-- What PutObject does to the other keys.
use mathlib.Core.Path.{ap₂}
use mathlib.Core.List.{reverse, reverse-cons, reverse-reverse, append_cancel_right, append_assoc}
use cave.Base.{
  ◌≡◌, ◌≢◌, refl, sym, ◌∙◌, ap, inl, inr, Bool, false, none, some, List, [], ◌∷◌, ◌++◌, Bytes, Err,
  ret, fail, panic, ret-inj, Outcome-cases, Option-cases, Bool-cases,
}
use cave.Path.{parse_path}
use cave.Path.Laws.{join_path, join_path-parse_path}
use cave.Types.{KvObject}
use cave.Bolt.{Handle, Slot, absent, stored, bucket, Bolt, IsBolt, same_place, value_of}
use cave.Kv.{Json, Node, walk, get_in, put_object, get_object, bytes_of}
use cave.Kv.Walk.{extend, IsChain, IsChain-grows, child-inv, walk_read-inv, same_place_sound}
use cave.Kv.PutIn.{get_in_stored}
use cave.Kv.Put.{put_object-committed}

extend-reverse : (h : Handle) (bs : List Bytes) → extend h bs ≡ reverse bs ++ h
extend-reverse h [] = refl
extend-reverse h (b ∷ bs) = extend-reverse (b ∷ h) bs ∙ rw (reverse-cons, append_assoc)

extend-inj : (h : Handle) (bs cs : List Bytes) → extend h bs ≡ extend h cs → bs ≡ cs
extend-inj h bs cs e =
    let k : reverse bs ≡ reverse cs =
      append_cancel_right (reverse bs) (reverse cs) h
        (sym (extend-reverse h bs) ∙ e ∙ extend-reverse h cs) in
    sym (reverse-reverse bs) ∙ ap reverse k ∙ reverse-reverse cs

-- Different paths are different places in the store.
pub place-ne :
    (prefix key other : Bytes)
    → key ≢ other
    → same_place
        (extend (prefix ∷ []) (parse_path key).0)
        (parse_path key).1
        (extend (prefix ∷ []) (parse_path other).0)
        (parse_path other).1
      ≡ false
place-ne prefix key other ne =
    let p = extend (prefix ∷ []) (parse_path key).0 in
    let q = extend (prefix ∷ []) (parse_path other).0 in
    elim (Bool-cases (same_place p (parse_path key).1 q (parse_path other).1)) [
      | inr h ↦ h
      | inl h ↦
          let (e, f) = same_place_sound p _ q _ h in
          let g = extend-inj (prefix ∷ []) (parse_path key).0 (parse_path other).0 e in
          absurd
            (ne (sym (join_path-parse_path key) ∙ ap₂ join_path g f ∙ join_path-parse_path other))
    ]

stored_of_value : (w : Slot) (v : Bytes) → bytes_of (value_of w) ≡ v → v ≢ [] → w ≡ stored v
stored_of_value absent v e ne = absurd (ne (sym e))
stored_of_value bucket v e ne = absurd (ne (sym e))
stored_of_value (stored w) v e ne = ap stored e

module _ (B : Bolt) (L : IsBolt B) where
  open L use {slot}

  get_in-nil :
      (buckets : List Bytes) (k prefix : Bytes) (s : B.State)
      → B.child s [] prefix ≡ none
      → get_in B buckets k prefix s ≡ panic
  unfolding get_in
  get_in-nil [] k prefix s c = rw c
  get_in-nil (b ∷ bs) k prefix s c = rw c

  -- A read that gives something found the value below a chain of buckets.
  pub get_in-inv :
      (buckets : List Bytes) (k prefix v : Bytes) (s : B.State)
      → get_in B buckets k prefix s ≡ ret v
      → v ≢ []
      → (slot s [] prefix ≡ bucket)
        × IsChain B L s (prefix ∷ []) buckets
        × (slot s (extend (prefix ∷ []) buckets) k ≡ stored v)
  unfolding get_in
  get_in-inv buckets k prefix v s e ne = elim (Option-cases (B.child s [] prefix)) [
    | inl c ↦ absurd (cc (get_in-nil buckets k prefix s c, e))
    | inr (h, c) ↦
        let (there, same) = child-inv B L s [] prefix c in
        let c' : B.child s [] prefix ≡ some (prefix ∷ []) = rw same at c in
        elim (Outcome-cases (walk B false buckets (some (prefix ∷ [])) prefix s).0) [
          | inl (r, w) ↦
              let (end, chain) = walk_read-inv B L s (prefix ∷ []) buckets prefix w in
              let value : ret (bytes_of (B.get s (extend (prefix ∷ []) buckets) k)) ≡ ret v =
                rw (c', w, end) at e in
              (there, chain, stored_of_value _ v (rw L.get_lem at (ret-inj value)) ne)
          | inr (inl (x, w)) ↦ absurd (cc (rw (c', w) at e))
          | inr (inr w) ↦ absurd (cc (rw (c', w) at e))
        ]
  ]

module _ (B : Bolt) (L : IsBolt B) (J : Json) where
  open L use {slot}

  pub get_object-inv :
      (key prefix : Bytes) (n : Node B) {o : KvObject} {x : Err}
      → J.objects.unmarshal [] ≡ fail x
      → get_object B J key prefix n ≡ ret o
      → (v : Bytes) × (get_in B (parse_path key).0 (parse_path key).1 prefix n.db ≡ ret v)
        × (v ≢ [])
        × (J.objects.unmarshal v ≡ ret o)
  unfolding get_object
  get_object-inv key prefix n empty e =
      let read = get_in B (parse_path key).0 (parse_path key).1 prefix n.db in
      elim (Outcome-cases read) [
        | inl (v, r) ↦
            let back : J.objects.unmarshal v ≡ ret _ = rw (L.view_lem, r) at e in
            (v, r, (λ z. cc (empty, rw z at back)), back)
        | inr (inl (y, r)) ↦ absurd (cc (empty, rw (L.view_lem, r) at e))
        | inr (inr r) ↦ absurd (cc (rw (L.view_lem, r) at e))
      ]

  -- A put that succeeds changes what GetObject returns for no other key that had an object, if
  -- json.Unmarshal refuses the empty text.
  pub get_object-put_object_ne :
      (key other : Bytes) (o w : KvObject) (prefix : Bytes) (secret : Bool) (e : List Bool)
      (id : Bytes) (n : Node B) {u : Unit {0}} {x : Err}
      → J.objects.unmarshal [] ≡ fail x
      → key ≢ other
      → (put_object B J key o prefix secret e id n).0 ≡ ret u
      → get_object B J other prefix n ≡ ret w
      → get_object B J other prefix (put_object B J key o prefix secret e id n).1 ≡ ret w
  get_object-put_object_ne key other o w prefix secret e id n empty ne h g =
      let (v, read, nonempty, back) = get_object-inv other prefix n empty g in
      let (b, m, done) = put_object-committed B L J key o prefix secret e id n h in
      let t = (put_object B J key o prefix secret e id n).1.db in
      let (root, chain, there) = get_in-inv B L _ _ prefix v n.db read nonempty in
      let again : get_in B (parse_path other).0 (parse_path other).1 prefix t ≡ ret v =
        get_in_stored B L _ _ prefix v t done.root
          (IsChain-grows B L n.db t (prefix ∷ []) _ done.buckets_kept chain)
          (done.frame _ _ (rw there (λ y. cc)) (place-ne prefix key other ne) ∙ there) in
      unfold get_object in rw (L.view_lem, again, back)

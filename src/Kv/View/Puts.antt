-- ===== src/Kv/View/Puts.antt =====
-- What PutObject does to the view of a node.
use cave.Base.{
  ◌≡◌, ◌≢◌, sym, ap, ◌∙◌, subst, inl, inr, Bool, true, false, some, List, [], ◌∷◌, Bytes, eqb,
  eqb_iff, Err, ret, fail, Outcome-cases, Bool-cases, if◌then◌else◌,
}
use cave.Path.{parse_path}
use cave.Types.{KvObject, ReadsBack}
use cave.Bolt.{Handle, Slot, absent, stored, bucket, Bolt, IsBolt, same_place, create_slot}
use cave.Bolt.Transactions.{update-ret}
use cave.Kv.{Json, Node, walk, put_in, put_object, get_object}
use cave.Kv.Walk.{extend, IsChain-grows, same_place_sound}
use cave.Kv.PutIn.{put_in_lem, put_in-round, put-keeps, made}
use cave.Kv.Frame.{place-ne}
use cave.Kv.Put.{
  get_object-put_object, put_object-committed, put_object-db, put_object_fails, put_object_panics,
}
use cave.Kv.Shape.{IsTree, IsChain-IsLive}
use cave.Kv.View.{found, view, Holds, view-same}

create_slot-stored :
    (n : Bytes) (w : Slot) (v : Bytes) → (create_slot n w).1 ≡ stored v → w ≡ stored v
create_slot-stored [] w v e = e
create_slot-stored (c ∷ n) absent v e = cc
create_slot-stored (c ∷ n) (stored w) v e = e
create_slot-stored (c ∷ n) bucket v e = e

module _ (B : Bolt) (L : IsBolt B) (J : Json) (prefix : Bytes) where
  open L use {slot}

  create-origin :
      (s : B.State) (p : Handle) (n : Bytes) (q : Handle) (m v : Bytes)
      → slot (B.create p n s).1 q m ≡ stored v
      → slot s q m ≡ stored v
  create-origin s p n q m v e = elim (Bool-cases (same_place p n q m)) [
    | inl same ↦
        let (f, g) = same_place_sound p n q m same in
        let k : (create_slot n (slot s p n)).1 ≡ stored v = rw (L.slot-create, same) at e in
        subst (λ h. slot s h m ≡ stored v) f
          (subst (λ x. slot s p x ≡ stored v) g (create_slot-stored n (slot s p n) v k))
    | inr other ↦ rw (L.slot-create, other) at e
  ]

  -- A walk that creates buckets stores nothing.
  walk-origin :
      (s : B.State) (h : Handle) (bs : List Bytes) (name : Bytes) (q : Handle) (m v : Bytes)
      → slot (walk B true bs (some h) name s).1 q m ≡ stored v
      → slot s q m ≡ stored v
  unfolding walk
  walk-origin s h [] name q m v e = e
  walk-origin s h (b ∷ bs) name q m v e = elim (Outcome-cases (B.create h b s).0) [
    | inl (h', c) ↦
        create-origin s h b q m v (walk-origin (B.create h b s).1 h' bs b q m v (rw c at e))
    | inr (inl (x, c)) ↦ create-origin s h b q m v (rw c at e)
    | inr (inr c) ↦ create-origin s h b q m v (rw c at e)
  ]

  -- What a transaction of a put stored beside its own key was there before.
  put_in-origin :
      (buckets : List Bytes) (k bobj : Bytes) (s : B.State) (q : Handle) (m v : Bytes)
      {u : Unit {0}}
      → (put_in B buckets k prefix bobj s).0 ≡ ret u
      → same_place (extend (prefix ∷ []) buckets) k q m ≡ false
      → slot (put_in B buckets k prefix bobj s).1 q m ≡ stored v
      → slot s q m ≡ stored v
  put_in-origin buckets k bobj s q m v e other h =
      let (there, r, w, step) = put_in-round B L buckets k prefix bobj s e in
      let p = extend (prefix ∷ []) buckets in
      let mid = (made B L buckets prefix s).1 in
      let k' : slot (B.put p k bobj mid).1 q m ≡ stored v = rw step at h in
      walk-origin s (prefix ∷ []) buckets prefix q m v
        (sym (put-keeps B L p k bobj mid q m other) ∙ k')

  -- What is held under another key after a committed put was held before, and the other way round.
  put-held :
      (key other bobj : Bytes) (s : B.State) (o : KvObject) {u : Unit {0}}
      → key ≢ other
      → IsTree B L s
      → (put_in B (parse_path key).0 (parse_path key).1 prefix bobj s).0 ≡ ret u
      → (Holds B L J prefix s other o
          → Holds B L J prefix
              (put_in B (parse_path key).0 (parse_path key).1 prefix bobj s).1
              other
              o)
        × (Holds B L J prefix
              (put_in B (parse_path key).0 (parse_path key).1 prefix bobj s).1
              other
              o
            → Holds B L J prefix s other o)
  put-held key other bobj s o ne tree e =
      let done = put_in_lem B L (parse_path key).0 (parse_path key).1 prefix bobj s e in
      let apart = place-ne prefix key other ne in
      (
        (λ h. record {
          text = h.text;
          root = done.root;
          chain = IsChain-grows B L s _ (prefix ∷ []) _ done.buckets_kept h.chain;
          there = done.frame _ _ (λ z. cc (h.there, z)) apart ∙ h.there;
          back = h.back;
        }),
        λ h.
            let there =
              put_in-origin (parse_path key).0 (parse_path key).1 bobj s _ _ h.text e apart
                h.there in
            let (root, chain) = IsChain-IsLive B L s (prefix ∷ []) (parse_path other).0 tree (
              tree (extend (prefix ∷ []) (parse_path other).0) (parse_path other).1
                (λ z. cc (there, z))) in
            record { text = h.text; root = root; chain = chain; there = there; back = h.back },
      )

  -- The transaction of a put that succeeds.
  put_object-body :
      (key : Bytes) (o : KvObject) (secret : Bool) (e : List Bool) (id : Bytes) (n : Node B)
      {b : Bytes} {u : Unit {0}}
      → J.objects.marshal o ≡ ret b
      → (put_object B J key o prefix secret e id n).0 ≡ ret u
      → ((put_in B (parse_path key).0 (parse_path key).1 prefix b n.db).0 ≡ ret tt)
        × ((put_object B J key o prefix secret e id n).1.db
            ≡ (put_in B (parse_path key).0 (parse_path key).1 prefix b n.db).1)
  put_object-body key o secret e id n {b} m h =
      let body = put_in B (parse_path key).0 (parse_path key).1 prefix b in
      elim (Outcome-cases (B.update body n.db).0) [
        | inl (u, c) ↦
            let (done, commit) = update-ret B L body n.db c in
            (done, put_object-db B L J key o prefix secret e id n m ∙ rw commit)
        | inr (inl (x, c)) ↦ absurd (cc (put_object_fails B L J key o prefix secret e id n m c, h))
        | inr (inr c) ↦ absurd (cc (put_object_panics B L J key o prefix secret e id n m c, h))
      ]

  -- PutObject without an error: the key shows the object, and every other key what it showed before.
  pub view-put_object :
      (key other : Bytes) (o : KvObject) (secret : Bool) (e : List Bool) (id : Bytes) (n : Node B)
      {u : Unit {0}} {x : Err}
      → J.objects.unmarshal [] ≡ fail x
      → ReadsBack J.objects o
      → IsTree B L n.db
      → (put_object B J key o prefix secret e id n).0 ≡ ret u
      → view B L J prefix (put_object B J key o prefix secret e id n).1 other
        ≡ (if eqb key other then some o else view B L J prefix n other)
  view-put_object key other o secret e id n {x = x} empty back tree h =
      let (b, m, _) = put_object-committed B L J key o prefix secret e id n h in
      let (done, commit) = put_object-body key o secret e id n m h in
      elim (Bool-cases (eqb key other)) [
        | inl same ↦
            let k = get_object-put_object B L J key o prefix secret e id n back h in
            rw same (
              subst
                (λ j.
                  found (get_object B J j prefix (put_object B J key o prefix secret e id n).1)
                  ≡ some o)
                ((eqb_iff key other).0 same) (ap found k))
        | inr differ ↦
            let held = λ (w : KvObject).
              put-held key other b n.db w (λ z. cc (differ, (eqb_iff key other).1 z)) tree done in
            rw differ (
              view-same B L J prefix other n (put_object B J key o prefix secret e id n).1 {x = x}
                empty (λ w k. subst (λ s. Holds B L J prefix s other w) (sym commit) ((held w).0 k))
                (λ w k. (held w).1 (subst (λ s. Holds B L J prefix s other w) commit k)))
      ]

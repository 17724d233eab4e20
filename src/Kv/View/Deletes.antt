-- ===== src/Kv/View/Deletes.antt =====
-- What DeleteKey does to the view of a node.
use cave.Base.{
  ◌≡◌, ◌≢◌, sym, ◌∙◌, subst, inl, inr, Bool, none, List, [], ◌∷◌, Bytes, eqb, eqb_iff, Err, ret,
  fail, Outcome-cases, Bool-cases, if◌then◌else◌, codes,
}
use cave.Path.{parse_path}
use cave.Types.{KvObject}
use cave.Bolt.{Handle, absent, bucket, Bolt, IsBolt, same_place}
use cave.Bolt.Transactions.{update-ret, update-fail, update-panic, update_of_ret}
use cave.Kv.{Json, Node, delete_in, delete_key, emit_flag}
use cave.Kv.Walk.{extend, IsChain-grows, same_place_sound, child-bucket, walk_read}
use cave.Kv.Frame.{place-ne}
use cave.Kv.DeleteIn.{delete_in_lem}
use cave.Kv.Delete.{then_emit-db}
use cave.Kv.View.{view, Holds, view-same, view-none}

module _ (B : Bolt) (L : IsBolt B) (J : Json) (prefix : Bytes) where
  open L use {slot}

  -- A deletion makes no bucket.
  delete-buckets_back :
      (key : Bytes) (s : B.State) {u : Unit {0}}
      → (delete_in B (parse_path key).0 (parse_path key).1 prefix s).0 ≡ ret u
      → (q : Handle) (m : Bytes)
      → slot (delete_in B (parse_path key).0 (parse_path key).1 prefix s).1 q m ≡ bucket
      → slot s q m ≡ bucket
  delete-buckets_back key s e q m b =
      let done = delete_in_lem B L (parse_path key).0 (parse_path key).1 prefix s e in
      let p = extend (prefix ∷ []) (parse_path key).0 in
      elim (Bool-cases (same_place p (parse_path key).1 q m)) [
        | inr other ↦ sym (done.frame q m other) ∙ b
        | inl same ↦
            let (f, g) = same_place_sound p (parse_path key).1 q m same in
            let t = (delete_in B (parse_path key).0 (parse_path key).1 prefix s).1 in
            let gone : slot t q m ≡ absent =
              subst (λ h. slot t h m ≡ absent) f (subst (λ x. slot t p x ≡ absent) g done.gone) in
            absurd (cc (gone, b))
      ]

  -- What is held under another key after a committed deletion was held before, and the other way
  -- round.
  delete-held :
      (key other : Bytes) (s : B.State) (o : KvObject) {u : Unit {0}}
      → key ≢ other
      → (delete_in B (parse_path key).0 (parse_path key).1 prefix s).0 ≡ ret u
      → (Holds B L J prefix s other o
          → Holds B L J prefix
              (delete_in B (parse_path key).0 (parse_path key).1 prefix s).1
              other
              o)
        × (Holds B L J prefix (delete_in B (parse_path key).0 (parse_path key).1 prefix s).1 other o
            → Holds B L J prefix s other o)
  delete-held key other s o ne e =
      let done = delete_in_lem B L (parse_path key).0 (parse_path key).1 prefix s e in
      let apart = place-ne prefix key other ne in
      (
        (λ h. record {
          text = h.text;
          root = done.root;
          chain = IsChain-grows B L s _ (prefix ∷ []) _ done.buckets_kept h.chain;
          there = done.frame _ _ apart ∙ h.there;
          back = h.back;
        }),
        λ h. record {
          text = h.text;
          root = delete-buckets_back key s e [] prefix h.root;
          chain = IsChain-grows B L _ s (prefix ∷ []) _ (delete-buckets_back key s e) h.chain;
          there = sym (done.frame _ _ apart) ∙ h.there;
          back = h.back;
        },
      )

  -- A key whose object is held can be deleted.
  delete_in-held :
      (key : Bytes) (s : B.State) (o : KvObject)
      → Holds B L J prefix s key o
      → (delete_in B (parse_path key).0 (parse_path key).1 prefix s).0 ≡ ret tt
  delete_in-held key s o h =
      unfold delete_in in
      rw (
        child-bucket B L s [] prefix h.root,
        walk_read B L s (prefix ∷ []) (parse_path key).0 prefix h.chain,
        L.delete_lem,
        h.there,
      )

  delete_key-db :
      (key : Bytes) (e : List Bool) (id : Bytes) (n : Node B)
      → (delete_key B J key prefix e id n).1.db
        ≡ (B.update (delete_in B (parse_path key).0 (parse_path key).1 prefix) n.db).1
  unfolding delete_key
  delete_key-db key e id n = then_emit-db B L J (emit_flag e) (codes "delete:key") key id _ n

  deleted :
      (key other : Bytes) (e : List Bool) (id : Bytes) (n : Node B) {u : Unit {0}} {x : Err}
      → J.objects.unmarshal [] ≡ fail x
      → (delete_in B (parse_path key).0 (parse_path key).1 prefix n.db).0 ≡ ret u
      → (delete_key B J key prefix e id n).1.db
        ≡ (delete_in B (parse_path key).0 (parse_path key).1 prefix n.db).1
      → view B L J prefix (delete_key B J key prefix e id n).1 other
        ≡ (if eqb key other then none else view B L J prefix n other)
  deleted key other e id n {x = x} empty d commit = elim (Bool-cases (eqb key other)) [
    | inl same ↦
        let done = delete_in_lem B L (parse_path key).0 (parse_path key).1 prefix n.db d in
        let k =
          view-none B L J prefix key (delete_key B J key prefix e id n).1 {x = x} empty (λ w h.
            let h' = subst (λ s. Holds B L J prefix s key w) commit h in
            cc (h'.there, done.gone)) in
        rw same (
          subst (λ j. view B L J prefix (delete_key B J key prefix e id n).1 j ≡ none)
            ((eqb_iff key other).0 same) k)
    | inr differ ↦
        let held = λ (w : KvObject).
          delete-held key other n.db w (λ z. cc (differ, (eqb_iff key other).1 z)) d in
        rw differ (
          view-same B L J prefix other n (delete_key B J key prefix e id n).1 {x = x} empty
            (λ w k. subst (λ s. Holds B L J prefix s other w) (sym commit) ((held w).0 k))
            (λ w k. (held w).1 (subst (λ s. Holds B L J prefix s other w) commit k)))
  ]

  -- A deletion that is rolled back had no object to delete.
  undeleted :
      (key other : Bytes) (e : List Bool) (id : Bytes) (n : Node B) {x : Err}
      → J.objects.unmarshal [] ≡ fail x
      → ((w : KvObject) → Holds B L J prefix n.db key w → ⊥)
      → (delete_key B J key prefix e id n).1.db ≡ n.db
      → view B L J prefix (delete_key B J key prefix e id n).1 other
        ≡ (if eqb key other then none else view B L J prefix n other)
  undeleted key other e id n {x = x} empty nothing commit = elim (Bool-cases (eqb key other)) [
    | inl same ↦
        let k =
          view-none B L J prefix key (delete_key B J key prefix e id n).1 {x = x} empty
            (λ w h. nothing w (subst (λ s. Holds B L J prefix s key w) commit h)) in
        rw same (
          subst (λ j. view B L J prefix (delete_key B J key prefix e id n).1 j ≡ none)
            ((eqb_iff key other).0 same) k)
    | inr differ ↦ rw differ (
        view-same B L J prefix other n (delete_key B J key prefix e id n).1 {x = x} empty
          (λ w k. subst (λ s. Holds B L J prefix s other w) (sym commit) k)
          (λ w k. subst (λ s. Holds B L J prefix s other w) commit k))
  ]

  -- Whatever DeleteKey returns, then the key shows nothing, and every other key what it showed before,
  -- if json.Unmarshal refuses the empty text.
  pub view-delete_key :
      (key other : Bytes) (e : List Bool) (id : Bytes) (n : Node B) {x : Err}
      → J.objects.unmarshal [] ≡ fail x
      → view B L J prefix (delete_key B J key prefix e id n).1 other
        ≡ (if eqb key other then none else view B L J prefix n other)
  view-delete_key key other e id n {x} empty =
      let body = delete_in B (parse_path key).0 (parse_path key).1 prefix in
      elim (Outcome-cases (B.update body n.db).0) [
        | inl (u, c) ↦
            let (done, commit) = update-ret B L body n.db c in
            deleted key other e id n {x = x} empty done (delete_key-db key e id n ∙ rw commit)
        | inr (inl (y, c)) ↦
            undeleted key other e id n {x = x} empty
              (λ w h. cc (c, update_of_ret B L body n.db (delete_in-held key n.db w h)))
              (delete_key-db key e id n ∙ rw (update-fail B L body n.db c).1)
        | inr (inr c) ↦
            undeleted key other e id n {x = x} empty
              (λ w h. cc (c, update_of_ret B L body n.db (delete_in-held key n.db w h)))
              (delete_key-db key e id n ∙ rw (update-panic B L body n.db c).1)
      ]

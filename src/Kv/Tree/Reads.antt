-- ===== src/Kv/Tree/Reads.antt =====
-- GetTree against the reads of single keys, and the bound of the nesting that is enough for it.
use cave.Base.{
  ℕ, zero, suc, ◌+◌, ◌≤◌, ◌≡◌, ◌≢◌, ◌↔◌, refl, sym, subst, ◌∙◌, inl, inr, Option, none, some, List,
  [], ◌∷◌, Bytes, length, arith, Outcome, ret, panic, Option-cases,
}
use cave.Path.{parse_path}
use cave.Bolt.{Handle, bucket, Bolt, IsBolt}
use cave.Kv.{Node, get_in, get_buckets, walk}
use cave.Kv.Walk.{child-inv, child-bucket}
use cave.Kv.Frame.{get_in-inv}
use cave.Kv.PutIn.{get_in_stored}
use cave.Kv.{Json}
use cave.Kv.Depth.{IsShallow, HasRoom}
use cave.Kv.Reach.{Reach, Reach-HasRoom}
use cave.Kv.Tree.{Tree, entry_of, raw, empty, entry, entries_of, enumerate_bucket, get_tree}
use cave.Kv.Tree.Shows.{value_at, value_at-enumerate_bucket_iff}

module _ (B : Bolt) (L : IsBolt B) where
  open L use {slot}

  get_tree-rootless :
      (depth : ℕ) (prefix : Bytes) (n : Node B)
      → B.child n.db [] prefix ≡ none
      → get_tree B depth prefix n ≡ panic
  unfolding get_tree get_buckets walk
  get_tree-rootless depth prefix n c = rw (L.view_lem, c)

  get_tree-root :
      (depth : ℕ) (prefix : Bytes) (n : Node B)
      → slot n.db [] prefix ≡ bucket
      → get_tree B depth prefix n ≡ enumerate_bucket B depth n.db (prefix ∷ [])
  unfolding get_tree get_buckets walk
  get_tree-root depth prefix n r = rw (L.view_lem, child-bucket B L n.db [] prefix r)

  get_tree-inv :
      (depth : ℕ) (prefix : Bytes) (n : Node B) {t : Tree}
      → get_tree B depth prefix n ≡ ret t
      → (slot n.db [] prefix ≡ bucket) × (enumerate_bucket B depth n.db (prefix ∷ []) ≡ ret t)
  get_tree-inv depth prefix n e = elim (Option-cases (B.child n.db [] prefix)) [
    | inl c ↦ absurd (cc (get_tree-rootless depth prefix n c, e))
    | inr (h, c) ↦
        let (r, _) = child-inv B L n.db [] prefix c in (r, sym (get_tree-root depth prefix n r) ∙ e)
  ]

  -- The tree that GetTree returns has at the buckets and the key of a path exactly the text that a
  -- read of the path finds, where that is not empty.
  pub get_tree-get_in :
      (depth : ℕ) (prefix key v : Bytes) (n : Node B) {t : Tree}
      → get_tree B depth prefix n ≡ ret t
      → v ≢ []
      → (value_at (parse_path key).0 (parse_path key).1 t ≡ some v)
        ↔ (get_in B (parse_path key).0 (parse_path key).1 prefix n.db ≡ ret v)
  get_tree-get_in depth prefix key v n {t} e ne =
      let (r, made) = get_tree-inv depth prefix n e in
      let (to, from) =
        value_at-enumerate_bucket_iff B L depth n.db (prefix ∷ []) (parse_path key).0
          (parse_path key).1 {t = t} {v = v} made in
      (
        (λ a.
            let (c, there) = to a in
            get_in_stored B L (parse_path key).0 (parse_path key).1 prefix v n.db r c there),
        λ a.
            let (_, c, there) =
              get_in-inv B L (parse_path key).0 (parse_path key).1 prefix v n.db a ne in
            from (c, there),
      )

  entry_of-total :
      (f : Handle → Outcome Tree) (s : B.State) (h : Handle) (k v : Bytes) (o : Option Handle)
      (rest : Outcome Tree) {r : Tree}
      → ((h' : Handle) → o ≡ some h' → (u : Tree) × (f h' ≡ ret u))
      → rest ≡ ret r
      → (t : Tree) × (entry_of f k v o rest ≡ ret t)
  entry_of-total f s h k v none rest {r} up e = (entry k (raw v) r, rw e)
  entry_of-total f s h k v (some h') rest {r} up e =
      let (u, a) = up h' refl in (entry k u r, rw (a, e))

  entries_of-total :
      (f : Handle → Outcome Tree) (s : B.State) (h : Handle) (ks : List Bytes)
      → ((k : Bytes) (h' : Handle) → B.child s h k ≡ some h' → (u : Tree) × (f h' ≡ ret u))
      → (t : Tree) × (entries_of B f s h ks ≡ ret t)
  unfolding entries_of
  entries_of-total f s h [] up = (empty, refl)
  entries_of-total f s h (k ∷ ks) up =
      let (r, e) = entries_of-total f s h ks up in
      entry_of-total f s h k _ (B.child s h k) (entries_of B f s h ks) (up k) e

  enumerate_bucket-total :
      (d depth : ℕ) (s : B.State) (h : Handle)
      → IsShallow B L d s
      → length h ≤ d
      → d + 1 ≤ depth + length h
      → (t : Tree) × (enumerate_bucket B depth s h ≡ ret t)
  unfolding enumerate_bucket
  enumerate_bucket-total d zero s h shallow low enough = absurd (omega arith)
  enumerate_bucket-total d (suc depth) s h shallow low enough =
      entries_of-total (enumerate_bucket B depth s) s h (B.keys s h) (λ k h' c.
        let (r, same) = child-inv B L s h k c in
        let deep : suc (length h) ≤ d = shallow h k r in
        subst (λ x. (u : Tree) × (enumerate_bucket B depth s x ≡ ret u)) (sym same)
          (enumerate_bucket-total d depth s (k ∷ h) shallow deep (omega arith)))

  -- GetTree returns a tree, under every bound of the nesting that is at least the depth of the
  -- store's buckets, if the bucket of the prefix is there.
  pub get_tree-total :
      (d depth : ℕ) (prefix : Bytes) (n : Node B)
      → IsShallow B L d n.db
      → slot n.db [] prefix ≡ bucket
      → d ≤ depth
      → (t : Tree) × (get_tree B depth prefix n ≡ ret t)
  get_tree-total d depth prefix n shallow r enough =
      let low : 1 ≤ d = shallow [] prefix r in
      let (t, e) = enumerate_bucket-total d depth n.db (prefix ∷ []) shallow low (omega arith) in
      (t, get_tree-root depth prefix n r ∙ e)

module _ (B : Bolt) (L : IsBolt B) (J : Json) where
  -- In every state that operations and messages lead to, in any order and with any results, GetTree
  -- returns a tree under some bound of the nesting, if at the start the bucket of the prefix was there
  -- and the buckets nested within some bound.
  pub get_tree-reached :
      (prefix : Bytes) {n m : Node B}
      → HasRoom B L prefix n.db
      → Reach B L J n m
      → (depth : ℕ) × (t : Tree) × (get_tree B depth prefix m ≡ ret t)
  get_tree-reached prefix {n} {m} room reach =
      let (root, d, shallow) = Reach-HasRoom B L J prefix room reach in
      let (t, e) = get_tree-total B L d d prefix m shallow root (omega arith) in (d, t, e)

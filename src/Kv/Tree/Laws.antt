-- ===== src/Kv/Tree/Laws.antt =====
-- The tree of GetTree at different bounds of the nesting.
use cave.Base.{then-ret, ℕ, zero, suc, ◌≡◌, Option, none, some, List, [], ◌∷◌, Bytes, Outcome, ret}
use cave.Bolt.{Handle, Bolt}
use cave.Kv.Tree.{Tree, entry_of, entries_of, enumerate_bucket}

entry_of-grows :
    (f g : Handle → Outcome Tree) (k v : Bytes) (o : Option Handle) (rest more : Outcome Tree)
    {t : Tree}
    → ((h : Handle) (t' : Tree) → f h ≡ ret t' → g h ≡ ret t')
    → ((r : Tree) → rest ≡ ret r → more ≡ ret r)
    → entry_of f k v o rest ≡ ret t
    → entry_of g k v o more ≡ ret t
entry_of-grows f g k v none rest more up ih e = let (r, a, b) = then-ret rest _ e in rw (ih r a) b
entry_of-grows f g k v (some h) rest more up ih e =
    let (t', a, b) = then-ret (f h) _ e in
    let (r, a', b') = then-ret rest _ b in rw (up h t' a, ih r a') b'

module _ (B : Bolt) where
  entries_of-grows :
      (f g : Handle → Outcome Tree) (s : B.State) (h : Handle) (ks : List Bytes) (t : Tree)
      → ((h' : Handle) (t' : Tree) → f h' ≡ ret t' → g h' ≡ ret t')
      → entries_of B f s h ks ≡ ret t
      → entries_of B g s h ks ≡ ret t
  unfolding entries_of
  entries_of-grows f g s h [] t up e = e
  entries_of-grows f g s h (k ∷ ks) t up e =
      entry_of-grows f g k _ (B.child s h k) _ _ up (λ r i. entries_of-grows f g s h ks r up i) e

  -- A tree that enumerateBucket finds within a bound of the nesting it finds within every larger one.
  pub enumerate_bucket-deeper :
      (depth : ℕ) (s : B.State) (h : Handle) {t : Tree}
      → enumerate_bucket B depth s h ≡ ret t
      → enumerate_bucket B (suc depth) s h ≡ ret t
  unfolding enumerate_bucket
  enumerate_bucket-deeper zero s h e = absurd (cc)
  enumerate_bucket-deeper (suc depth) s h {t} e =
      entries_of-grows (enumerate_bucket B depth s) (enumerate_bucket B (suc depth) s) s h
        (B.keys s h) t (λ h' t' k. enumerate_bucket-deeper depth s h' k) e

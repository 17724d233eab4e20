-- ===== src/Kv/Tree.antt =====
-- kv.go GetTree and enumerateBucket: the nested map of everything below a bucket.
pub mod Laws
pub mod Shows
pub mod Reads
use cave.Base.{
  Option, ℕ, zero, suc, none, some, List, [], ◌∷◌, Bytes, false, Outcome, ret, panic, ◌>>?◌,
}
use cave.Bolt.{Handle, Bolt}
use cave.Kv.{Node, bytes_of, deref, get_buckets}

-- map[string]interface{}: a json.RawMessage, or a map with its entries in the order of the cursor.
pub data Tree : Type 0 where
  raw : Bytes → Tree
  empty : Tree
  entry : Bytes → Tree → Tree → Tree

-- One round of the loop: the name is that of a bucket or of a value.
abbrev pub entry_of :
    (Handle → Outcome Tree) → Bytes → Bytes → Option Handle → Outcome Tree → Outcome Tree
entry_of below k v none rest = rest >>? λ r. ret (entry k (raw v) r)
entry_of below k v (some h) rest = below h >>? λ t. rest >>? λ r. ret (entry k t r)

module _ (B : Bolt) where
  -- The loop over the cursor; `below` enumerates a nested bucket.
  unfoldable pub entries_of : (Handle → Outcome Tree) → B.State → Handle → List Bytes → Outcome Tree
  entries_of below s h [] = ret empty
  entries_of below s h (k ∷ ks) =
      entry_of below k (bytes_of (B.get s h k)) (B.child s h k) (entries_of below s h ks)

  -- `depth` is how deep the calls may nest: beyond it the stack overflows, which ends the program.
  unfoldable pub enumerate_bucket : ℕ → B.State → Handle → Outcome Tree
  unfolding entries_of
  enumerate_bucket zero s h = panic
  enumerate_bucket (suc depth) s h = entries_of (enumerate_bucket depth s) s h (B.keys s h)

  -- The path is empty, so that the tree is that of the whole prefix.
  unfoldable pub get_tree : ℕ → Bytes → Node B → Outcome Tree
  unfolding get_buckets enumerate_bucket
  get_tree depth prefix n =
      B.view
        (λ s. (get_buckets B [] prefix false s).0 >>? λ (b, _).
          deref b >>? λ h. enumerate_bucket depth s h)
        n.db

-- ===== src/Tests/Tree.antt =====
-- The theorem on GetTree at a store with one nested key.
use cave.Base.{ℕ, ◌≡◌, ◌↔◌, arith, refl, sym, false, some, ret, [], ◌∷◌, codes, eqb, path_eqb}
use cave.Path.{parse_path, last_index, split}
use cave.Bolt.Memory.{memory, memory-IsBolt, settle, find_named, find, names}
use cave.Kv.{emit_event, put_object, put_in, get_buckets, walk}
use cave.Kv.Updates.{kv_prefix}
use cave.Kv.Tree.{Tree, raw, empty, entry, enumerate_bucket}
use cave.Kv.Tree.{get_tree}
use cave.Kv.{get_in}
use cave.Kv.Tree.Shows.{value_at}
use cave.Kv.Depth.{IsShallow}
use cave.Kv.Reach.{here, next, puts}
use cave.Kv.Tree.Reads.{get_tree-get_in, get_tree-total, get_tree-reached}
use cave.Bolt.{Slot, absent, stored, bucket, is_present, child_of}
use cave.Tests.Nodes.{json, first, key, start as new_node, put_first}

abbrev tree : Tree
tree = entry (codes "a") (entry (codes "b") (raw (5 ∷ 0 ∷ 9 ∷ [])) empty) empty

only_bucket : (w : Slot) → child_of [] kv_prefix w ≡ some (kv_prefix ∷ []) → w ≡ bucket
only_bucket absent e = cc
only_bucket (stored v) e = cc
only_bucket bucket e = refl

no_bucket : (w : Slot) → w ≡ bucket → is_present w ≡ false → ⊥
no_bucket absent e f = cc
no_bucket (stored v) e f = cc
no_bucket bucket e f = cc

enumerated : enumerate_bucket memory 2 put_first.db (kv_prefix ∷ []) ≡ ret tree
unfolding enumerate_bucket put_object put_in get_buckets walk parse_path last_index split eqb settle
    find_named find path_eqb names emit_event
enumerated = refl

whole_tree : get_tree memory 2 kv_prefix put_first ≡ ret tree
unfolding get_tree enumerate_bucket put_object put_in get_buckets walk parse_path last_index split
    eqb settle find_named find path_eqb names emit_event
whole_tree = refl

get_tree-get_in_example :
    (value_at (parse_path key).0 (parse_path key).1 tree ≡ some (5 ∷ 0 ∷ 9 ∷ [])) ↔ (
      get_in memory (parse_path key).0 (parse_path key).1 kv_prefix put_first.db
      ≡ ret (5 ∷ 0 ∷ 9 ∷ []))
get_tree-get_in_example =
    get_tree-get_in memory memory-IsBolt 2 kv_prefix key (5 ∷ 0 ∷ 9 ∷ []) put_first whole_tree
      (λ e. cc)

has_root : memory-IsBolt.slot new_node.db [] kv_prefix ≡ bucket
unfolding find_named find path_eqb eqb
has_root = only_bucket _ (sym (memory-IsBolt.child_lem new_node.db [] kv_prefix))

new_node-IsShallow : IsShallow memory memory-IsBolt 1 new_node.db
unfolding names path_eqb find_named find
new_node-IsShallow [] m e = omega arith
new_node-IsShallow (n ∷ q) m e =
    absurd (no_bucket _ e (sym (memory-IsBolt.listed-keys new_node.db (n ∷ q) m)))

get_tree-total_example : (t : Tree) × (get_tree memory 4 kv_prefix new_node ≡ ret t)
get_tree-total_example =
    get_tree-total memory memory-IsBolt 1 4 kv_prefix new_node new_node-IsShallow has_root
      (omega arith)

get_tree-reached_example :
    (depth : ℕ) × (t : Tree) × (get_tree memory depth kv_prefix put_first ≡ ret t)
get_tree-reached_example =
    get_tree-reached memory memory-IsBolt json kv_prefix (has_root, 1, new_node-IsShallow)
      (next here (puts key first kv_prefix false [] (1 ∷ [])))

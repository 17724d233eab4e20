-- ===== src/Tests/Reach.antt =====
-- The theorems on runs of the engine at a concrete run.
use cave.Base.{◌≡◌, refl, sym, false, [], ◌∷◌, List, eqb, path_eqb, ret, message}
use cave.Path.{parse_path, last_index, split}
use cave.Bolt.{Slot, absent, stored, bucket, is_present}
use cave.Bolt.Memory.{memory, memory-IsBolt, settle, find_named, find, names}
use cave.Cluster.{emit}
use cave.Kv.{Node, delete_key, put_object, put_in, get_buckets, walk, emit_event}
use cave.Kv.Updates.{kv_prefix}
use cave.Kv.Reach.{IsShaped}
use cave.Kv.View.{view}
use cave.Kv.View.Refines.{Edit, set, unset, content, start, put, delete, Trace-content}
use cave.Tests.Nodes.{
  reads_back, key, other, first, second, json, start as new_node, put_first, put_both,
}

absent_slot : (w : Slot) → is_present w ≡ false → w ≡ absent
absent_slot absent e = refl
absent_slot (stored v) e = cc
absent_slot bucket e = cc

pub new_node-IsShaped : IsShaped memory memory-IsBolt json new_node
unfolding names path_eqb find_named find
new_node-IsShaped [] m h = tt
new_node-IsShaped (n ∷ q) m h =
    absurd (h (absent_slot _ (sym (memory-IsBolt.listed-keys new_node.db (n ∷ q) m))))

put_first_succeeds :
    (put_object memory json key first kv_prefix false [] (1 ∷ []) new_node).0 ≡ ret tt
unfolding put_object put_in get_buckets walk parse_path last_index split eqb emit_event emit settle
    find_named find path_eqb
put_first_succeeds = refl

put_both_succeeds :
    (put_object memory json other second kv_prefix false (false ∷ []) (1 ∷ []) put_first).0 ≡ ret tt
unfolding put_object put_in get_buckets walk parse_path last_index split eqb emit_event emit settle
    find_named find path_eqb
put_both_succeeds = refl

abbrev without : Node memory
without = (delete_key memory json key kv_prefix (false ∷ []) (1 ∷ []) put_both).1

abbrev edits : List Edit
edits = unset key ∷ set other second ∷ set key first ∷ []

Trace-content_example :
    view memory memory-IsBolt json kv_prefix without other
    ≡ content edits (view memory memory-IsBolt json kv_prefix new_node) other
Trace-content_example =
    Trace-content memory memory-IsBolt json kv_prefix {x = message []} refl new_node-IsShaped
      (delete key (false ∷ []) (1 ∷ []) (
        put other second false (false ∷ []) (1 ∷ [])
          (put key first false [] (1 ∷ []) start
            (reads_back json.objects first (5 ∷ 0 ∷ 9 ∷ []) refl refl) put_first_succeeds)
          (reads_back json.objects second (6 ∷ 0 ∷ 8 ∷ 8 ∷ []) refl refl) put_both_succeeds))
      other

-- ===== src/Tests/Kv.antt =====
-- The theorems on kv.go Put, Get and Delete at concrete inputs.
use cave.Base.{◌≡◌, refl, true, false, [], ◌∷◌, codes, ret, eqb, path_eqb}
use cave.Path.{slash, has_suffix, parse_path, last_index, split}
use cave.Bolt.Memory.{memory, memory-IsBolt, settle, find_named, find}
use cave.Cluster.{emit}
use cave.Kv.{
  then_emit, delete_in, delete_bucket, get_in, put_object, get_object, delete_key, put_in,
  get_buckets, walk, emit_event,
}
use cave.Kv.Updates.{kv_prefix}
use cave.Kv.Put.{get_object-put_object}
use cave.Kv.Delete.{delete_bucket-has_suffix}
use cave.Kv.{Node}
use cave.Types.{dev}
use cave.Base.{panic, ◌≢◌}
use cave.Types.{dev}
use cave.Tests.Nodes.{
  cluster_of, reads_back, key, other, first, second, json, start, put_first, put_both,
}

put_first_done : (put_object memory json key first kv_prefix false [] (1 ∷ []) start).0 ≡ ret tt
unfolding put_object put_in get_buckets walk parse_path last_index split eqb emit_event emit settle
    find_named find path_eqb
put_first_done = refl

get_object-put_object_example : get_object memory json key kv_prefix put_first ≡ ret first
get_object-put_object_example =
    get_object-put_object memory memory-IsBolt json key first kv_prefix false [] (1 ∷ []) start
      (reads_back json.objects first (5 ∷ 0 ∷ 9 ∷ []) refl refl) put_first_done

put_other_done :
    (put_object memory json other second kv_prefix false (false ∷ []) (1 ∷ []) put_first).0 ≡ ret tt
unfolding put_object put_in get_buckets walk parse_path last_index split eqb emit_event emit settle
    find_named find path_eqb
put_other_done = refl

deleted : (delete_key memory json key kv_prefix (false ∷ []) (1 ∷ []) put_both).0 ≡ ret tt
unfolding put_object put_in get_buckets walk parse_path last_index split eqb emit_event emit settle
    find_named find path_eqb delete_key delete_in then_emit
deleted = refl

read_other : get_object memory json other kv_prefix put_both ≡ ret second
unfolding put_object put_in get_buckets walk parse_path last_index split eqb emit_event emit settle
    find_named find path_eqb get_object get_in
read_other = refl

ends_in_slash : has_suffix slash (codes "a/") ≡ true
unfolding has_suffix
ends_in_slash = refl

delete_bucket-has_suffix_example :
    (delete_bucket memory json (codes "a/") kv_prefix [] (1 ∷ []) put_both).1.db ≡ put_both.db
delete_bucket-has_suffix_example =
    delete_bucket-has_suffix memory memory-IsBolt json (codes "a/") kv_prefix (1 ∷ []) [] put_both
      ends_in_slash

abbrev alone : Node memory
alone = record start { cluster = cluster_of dev }

no_panic :
    (memory.update (delete_in memory (parse_path key).0 (parse_path key).1 kv_prefix) alone.db).0
    ≢ panic
unfolding delete_in get_buckets walk parse_path last_index split eqb settle find_named find path_eqb
no_panic e = cc

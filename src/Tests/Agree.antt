-- ===== src/Tests/Agree.antt =====
-- The theorem on a node that hears the put and the deletion of another one.
use cave.Base.{
  ◌≡◌, ◌≢◌, Bytes, codes, panic, refl, false, [], ◌∷◌, List, eqb, path_eqb, ret, message,
}
use cave.Path.{parse_path, last_index, split}
use cave.Bolt.Memory.{memory, memory-IsBolt, settle, find_named, find}
use cave.Types.{Message}
use cave.Cluster.{emit}
use cave.Kv.Locks.{LockInput}
use cave.Kv.{
  Node, delete_in, then_emit, delete_key, put_object, put_in, get_buckets, walk, emit_event,
}
use cave.Kv.Updates.{kv_prefix, handle_update, handle_all, apply_update}
use cave.Kv.View.{view}
use cave.Kv.View.Feed.{Feed, begin, feed_put, feed_delete, handle_all-agree}
use cave.Tests.Nodes.{reads_back, key, other, first, second, json, input, start as new_node}
use cave.Tests.Locks.{message_of, put_update}
use cave.Tests.Reach.{new_node-IsShaped}

abbrev after_put : Node memory
after_put = (handle_update memory json (message_of (1 ∷ [])) input new_node).1

delete_update :
    json.updates.unmarshal (3 ∷ [])
    ≡ ret (record { update_type = codes "delete:key"; key = other; value = first })
unfolding eqb
delete_update = refl

put_done : (put_object memory json key second kv_prefix false [] (1 ∷ []) new_node).0 ≡ ret tt
unfolding put_object put_in get_buckets walk parse_path last_index split eqb emit_event emit settle
    find_named find path_eqb
put_done = refl

hear_done : (handle_update memory json (message_of (1 ∷ [])) input new_node).0 ≡ ret tt
unfolding handle_update apply_update put_object put_in get_buckets walk parse_path last_index split
    eqb emit_event emit settle find_named find path_eqb
hear_done = refl

abbrev messages : List (Message × LockInput)
messages = (message_of (1 ∷ []), input) ∷ (message_of (3 ∷ []), input) ∷ []

safe : (handle_update memory json (message_of (3 ∷ [])) input after_put).0 ≢ panic
unfolding handle_update apply_update delete_key then_emit delete_in put_object put_in get_buckets
    walk parse_path last_index split eqb emit_event emit settle find_named find path_eqb
safe e = cc

fed :
    Feed memory memory-IsBolt json new_node new_node
      (delete_key memory json other kv_prefix
        (false ∷ [])
        (4 ∷ [])
        (put_object memory json key second kv_prefix false [] (1 ∷ []) new_node).1).1
      (handle_update memory json (message_of (3 ∷ [])) input after_put).1
      messages
fed =
    feed_delete other first (false ∷ []) (4 ∷ []) (message_of (3 ∷ [])) input
      (feed_put key second false [] (1 ∷ []) (message_of (1 ∷ [])) input begin
        (reads_back json.objects second (6 ∷ 0 ∷ 8 ∷ 8 ∷ []) refl refl) put_done put_update
        hear_done)
      delete_update safe

handle_all-agree_example :
    (handle_all memory json messages new_node
      ≡ (ret tt, (handle_update memory json (message_of (3 ∷ [])) input after_put).1))
    × ((k : Bytes)
        → view memory memory-IsBolt json kv_prefix
            (delete_key memory json other kv_prefix
              (false ∷ [])
              (4 ∷ [])
              (put_object memory json key second kv_prefix false [] (1 ∷ []) new_node).1).1
            k
          ≡ view memory memory-IsBolt json kv_prefix (handle_all memory json messages new_node).1 k)
handle_all-agree_example =
    handle_all-agree memory memory-IsBolt json {x = message []} refl new_node-IsShaped
      new_node-IsShaped (λ k. refl) fed

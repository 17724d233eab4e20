-- ===== src/Tests/Locks.antt =====
-- The theorems on kv.go Lock, Unlock and handleUpdate and on cluster.go Emit at concrete inputs.
use cave.Base.{
  ◌≡◌, refl, false, none, [], ◌∷◌, Bytes, codes, ret, panic, ret-inj, subst, eqb, path_eqb,
}
use cave.Path.{parse_path, last_index, split}
use cave.Types.{KvUpdate, Message}
use cave.Bolt.Memory.{memory, memory-IsBolt, settle, find_named, find}
use cave.Cluster.{emit}
use cave.Kv.{get_in, Node, put_object, get_object, put_in, get_buckets, walk, emit_event}
use cave.Kv.Locks.{new_lock, lock, unlock}
use cave.Kv.Updates.{kv_prefix}
use cave.Kv.Locks.{lock_as, find_lock, remove_at}
use cave.Kv.Locks.Laws.{with_lock, unlock-lock}
use cave.Kv.Locks.Twice.{lock-lock, unlock-put}
use cave.Kv.Value.{stored_object}
use cave.Kv.{put}
use cave.Kv.Updates.{handle_update}
use cave.Kv.Updates.Laws.{handle_update-quiet, handle_update-lock_delete}
use cave.Tests.Nodes.{
  reads_back, key, input, later, held, held_later, first, second, json, start, put_first,
}

abbrev locked_node : Node memory
locked_node = (lock memory json key kv_prefix [] input put_first).1

lock_done : (lock memory json key kv_prefix [] input put_first).0 ≡ ret held
unfolding lock lock_as get_object get_in new_lock put_object put_in get_buckets walk parse_path
    last_index split eqb emit_event emit settle find_named find path_eqb
lock_done = refl

unlock_done : (unlock memory json held [] (4 ∷ []) locked_node).0 ≡ ret tt
unfolding unlock lock lock_as get_object get_in find_lock remove_at new_lock put_object put_in
    get_buckets walk parse_path last_index split eqb emit_event emit settle find_named find path_eqb
unlock_done = refl

read_first : get_object memory json key kv_prefix put_first ≡ ret first
unfolding get_object get_in put_object put_in get_buckets walk parse_path last_index split eqb
    emit_event emit settle find_named find path_eqb
read_first = refl

no_locks : (id : Bytes) → find_lock id [] ≡ none
unfolding find_lock
no_locks id = refl

unlock-lock_example :
    get_object memory json key kv_prefix (unlock memory json held [] (4 ∷ []) locked_node).1
    ≡ ret first
unlock-lock_example =
    unlock-lock memory memory-IsBolt json key kv_prefix (4 ∷ []) [] [] input put_first read_first
      (no_locks (7 ∷ []))
      (reads_back json.objects (with_lock first held) (5 ∷ 1 ∷ 9 ∷ []) refl refl)
      (reads_back json.objects first (5 ∷ 0 ∷ 9 ∷ []) refl refl) lock_done unlock_done

event_done : (emit_event memory json (codes "put:key") key first (1 ∷ []) start).0 ≡ ret tt
unfolding emit_event emit
event_done = refl

abbrev pub message_of : Bytes → Message
message_of b = record {
  epoch = 9;
  id = [];
  typ = codes "update";
  origin = codes "you:1";
  payload = b;
  data_type = codes "KVUpdate";
}

pub put_update :
    json.updates.unmarshal (1 ∷ [])
    ≡ ret (record { update_type = codes "put:key"; key = key; value = second })
unfolding eqb
put_update = refl

not_about_locks :
    (v : KvUpdate)
    → json.updates.unmarshal (1 ∷ []) ≡ ret v
    → (eqb v.update_type (codes "lock:create") ≡ false)
      × (eqb v.update_type (codes "lock:delete") ≡ false)
unfolding eqb
not_about_locks v h =
    subst
      (λ (w : KvUpdate).
        (eqb w.update_type (codes "lock:create") ≡ false)
        × (eqb w.update_type (codes "lock:delete") ≡ false))
      (ret-inj h) (refl, refl)

handle_update-quiet_example :
    (handle_update memory json (message_of (1 ∷ [])) input start).1.cluster ≡ start.cluster
handle_update-quiet_example =
    handle_update-quiet memory memory-IsBolt json (message_of (1 ∷ [])) input start not_about_locks

unlock_update :
    json.updates.unmarshal (2 ∷ [])
    ≡ ret (record { update_type = codes "lock:delete"; key = key; value = first })
unfolding eqb
unlock_update = refl

read_held : get_object memory json held.key held.prefix put_first ≡ ret first
unfolding new_lock
read_held = read_first

handle_update-lock_delete_example :
    handle_update memory json (message_of (2 ∷ [])) input put_first ≡ (panic, put_first)
handle_update-lock_delete_example =
    handle_update-lock_delete memory memory-IsBolt json (message_of (2 ∷ [])) input put_first held
      unlock_update refl refl read_held (no_locks held.lock_id)

lock_twice : (lock memory json key kv_prefix [] later locked_node).0 ≡ ret held_later
unfolding lock lock_as get_object get_in new_lock put_object put_in get_buckets walk parse_path
    last_index split eqb emit_event emit settle find_named find path_eqb
lock_twice = refl

lock-lock_example :
    get_object memory json key kv_prefix (lock memory json key kv_prefix [] later locked_node).1
    ≡ ret (record first { locks = held ∷ held_later ∷ [] })
lock-lock_example =
    lock-lock memory memory-IsBolt json key kv_prefix [] [] input later put_first {o = first}
      read_first (reads_back json.objects (with_lock first held) (5 ∷ 1 ∷ 9 ∷ []) refl refl)
      (reads_back json.objects (with_lock (with_lock first held) held_later) (5 ∷ 2 ∷ 9 ∷ []) refl
        refl)
      lock_done lock_twice

abbrev put_locked : Node memory
put_locked = (put memory json held.key (4 ∷ []) held.prefix false [] 12 (5 ∷ []) locked_node).1

put_locked_done :
    (put memory json held.key (4 ∷ []) held.prefix false [] 12 (5 ∷ []) locked_node).0 ≡ ret tt
unfolding put lock lock_as get_object get_in new_lock put_object put_in get_buckets walk parse_path
    last_index split eqb emit_event emit settle find_named find path_eqb
put_locked_done = refl

unlock-put_example : unlock memory json held [] (6 ∷ []) put_locked ≡ (panic, put_locked)
unlock-put_example =
    unlock-put memory memory-IsBolt json held (4 ∷ []) false [] [] 12 (5 ∷ []) (6 ∷ []) locked_node
      (reads_back json.objects (stored_object json (4 ∷ []) false 12) (12 ∷ 0 ∷ 4 ∷ []) refl refl)
      put_locked_done

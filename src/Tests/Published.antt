-- ===== src/Tests/Published.antt =====
-- The theorem on a PUT at one node and a GET at another, with an encoding of updates of one key.
use cave.Base.{
  ◌≡◌, refl, Bool, true, false, some, [], ◌∷◌, ◌++◌, map, Bytes, codes, Outcome, ret, ◌>>?◌, eqb,
  path_eqb,
}
use cave.Path.{trim_path, parse_path, last_index, split}
use cave.Types.{KvUpdate, Message, ReadsBack}
use cave.Bolt.Memory.{memory, memory-IsBolt, settle, find_named, find}
use cave.Cluster.{emit, Peer}
use cave.Cluster.Sync.{to_updates, handle, route}
use cave.Kv.{Json, put, put_object, put_in, get_buckets, walk, emit_event}
use cave.Kv.Value.{stored_object}
use cave.Kv.Updates.{handle_update, apply_update}
use cave.Kv.Updates.Replicates.{put_update}
use cave.Api.{answer, blob, note, kv_get_handler, kv_put_handler}
use cave.Api.Replicated.{kv_get_handler-replicated, kv_get_handler-replicated_secret}
use cave.Tests.Nodes.{reads_back, start, input}
use cave.Crypto.{encryt_json, sealed}
use cave.Tests.Crypto.{plain, plain-IsAead, key, key-IsKey, codecs, secrets_back}
use cave.Tests.Replication.{wire, messages_back, write_message}
use cave.Tests.Api.{api_json, bit, read_stored, request, for_key}

abbrev path : Bytes
path = codes "a/b"

abbrev read_update : Bytes → Outcome KvUpdate
read_update b =
    read_stored b >>? λ o. ret (record { update_type = codes "put:key"; key = path; value = o })

abbrev both_json : Json
both_json = record api_json {
  updates = record {
    marshal = λ u. ret (u.value.last_updated ∷ bit u.value.secret u.value.value);
    unmarshal = read_update;
  };
  messages = wire.messages;
}

objects_back : (v : Bytes) (s : Bool) → ReadsBack both_json.objects (stored_object both_json v s 5)
unfolding eqb
objects_back v false =
    reads_back both_json.objects (stored_object both_json v false 5) (5 ∷ 0 ∷ v) refl refl
objects_back v true =
    reads_back both_json.objects (stored_object both_json v true 5) (5 ∷ 1 ∷ v) refl refl

updates_back :
    (v : Bytes) (s : Bool)
    → ReadsBack both_json.updates
        (put_update memory memory-IsBolt both_json path (stored_object both_json v s 5))
unfolding eqb
updates_back v false =
    reads_back both_json.updates
      (put_update memory memory-IsBolt both_json path (stored_object both_json v false 5))
      (5 ∷ 0 ∷ v) refl refl
updates_back v true =
    reads_back both_json.updates
      (put_update memory memory-IsBolt both_json path (stored_object both_json v true 5))
      (5 ∷ 1 ∷ v) refl refl

abbrev told : Message
told = record {
  epoch = 4;
  id = 1 ∷ [];
  typ = codes "update";
  origin = codes "me:1";
  payload = 5 ∷ 0 ∷ 8 ∷ [];
  data_type = codes "KVUpdate";
}

put_ok :
    (kv_put_handler memory both_json plain codecs key (request []) start).0
    ≡ ret (answer 200 (note (codes "ok")))
unfolding kv_put_handler trim_path put put_object put_in get_buckets walk parse_path last_index
    split eqb emit_event emit settle find_named find path_eqb
put_ok = refl

sent :
    (kv_put_handler memory both_json plain codecs key (request []) start).1.cluster.sent
    ≡ start.cluster.sent ++ map (λ (p : Peer). (p.address, write_message told)) start.cluster.peers
unfolding kv_put_handler trim_path put put_object put_in get_buckets walk parse_path last_index
    split eqb emit_event emit settle find_named find path_eqb
sent = refl

heard : handle both_json.messages false (write_message told) ≡ ret (some (to_updates, told))
unfolding handle route eqb
heard = refl

handled : (handle_update memory both_json told input start).0 ≡ ret tt
unfolding handle_update apply_update put_object put_in get_buckets walk parse_path last_index split
    eqb emit_event emit settle find_named find path_eqb
handled = refl

kv_get_handler-replicated_example :
    (to_updates ≡ to_updates)
    × (kv_get_handler memory both_json plain codecs key 9
          (request [])
          (handle_update memory both_json told input start).1
        ≡ ret (answer 200 (blob (8 ∷ []))))
kv_get_handler-replicated_example =
    kv_get_handler-replicated memory memory-IsBolt both_json plain codecs key path (8 ∷ [])
      (write_message told) (request []) start start input (for_key []) refl refl objects_back
      updates_back (λ v s o p _ _. messages_back _) refl put_ok refl sent heard handled 9
      (request []) (for_key []) refl refl (λ e. cc)

abbrev told_secret : Message
told_secret = record told { payload = 5 ∷ 1 ∷ 0 ∷ 1 ∷ 2 ∷ 8 ∷ [] }

abbrev yes : Bytes
yes = 1 ∷ []

put_secret_ok :
    (kv_put_handler memory both_json plain codecs key (request yes) start).0
    ≡ ret (answer 200 (note (codes "ok")))
unfolding kv_put_handler trim_path put encryt_json sealed put_object put_in get_buckets walk
    parse_path last_index split eqb emit_event emit settle find_named find path_eqb
put_secret_ok = refl

sent_secret :
    (kv_put_handler memory both_json plain codecs key (request yes) start).1.cluster.sent
    ≡ start.cluster.sent
      ++ map (λ (p : Peer). (p.address, write_message told_secret)) start.cluster.peers
unfolding kv_put_handler trim_path put encryt_json sealed put_object put_in get_buckets walk
    parse_path last_index split eqb emit_event emit settle find_named find path_eqb
sent_secret = refl

heard_secret :
    handle both_json.messages false (write_message told_secret)
    ≡ ret (some (to_updates, told_secret))
unfolding handle route eqb
heard_secret = refl

handled_secret : (handle_update memory both_json told_secret input start).0 ≡ ret tt
unfolding handle_update apply_update put_object put_in get_buckets walk parse_path last_index split
    eqb emit_event emit settle find_named find path_eqb
handled_secret = refl

kv_get_handler-replicated_secret_example :
    (to_updates ≡ to_updates)
    × (kv_get_handler memory both_json plain codecs key 9
          (request yes)
          (handle_update memory both_json told_secret input start).1
        ≡ ret (answer 200 (blob (8 ∷ []))))
kv_get_handler-replicated_secret_example =
    kv_get_handler-replicated_secret memory memory-IsBolt both_json plain codecs key path (8 ∷ [])
      (write_message told_secret) (request yes) start start input (for_key yes) refl refl
      objects_back updates_back (λ v s o p _ _. messages_back _) refl put_secret_ok refl sent_secret
      heard_secret handled_secret 9 (request yes) plain-IsAead key-IsKey
      (reads_back codecs.blobs (8 ∷ []) (8 ∷ []) refl refl) secrets_back refl (for_key yes)
      (λ e. cc) (λ e. cc)

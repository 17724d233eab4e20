-- ===== src/Tests/Replication.antt =====
-- An encoding of messages by the lengths of their fields, and what a peer makes of the bytes of a put.
use cave.Base.{
  ◌≡◌, refl, false, some, [], ◌∷◌, ◌++◌, map, Bytes, codes, length, take, drop, take-length-append,
  drop-length-append, message, Outcome, ret, fail, eqb, path_eqb,
}
use cave.Path.{parse_path, last_index, split}
use cave.Types.{Message, ReadsBack}
use cave.Bolt.Memory.{memory, memory-IsBolt, settle, find_named, find}
use cave.Cluster.{emit, Peer}
use cave.Cluster.Sync.{to_updates, handle, route}
use cave.Kv.{Json, put_object, put_in, get_buckets, walk, emit_event}
use cave.Kv.Updates.{kv_prefix, handle_update, apply_update}
use cave.Kv.Updates.Replicates.{put_update}
use cave.Tests.Nodes.{reads_back, key, input, second, json, start}

abbrev with_length : Bytes → Bytes → Bytes
with_length f rest = length f ∷ (f ++ rest)

abbrev read_field : (Bytes → Bytes → Outcome Message) → Bytes → Outcome Message
read_field k [] = fail (message [])
read_field k (n ∷ s) = k (take n s) (drop n s)

abbrev pub write_message : Message → Bytes
write_message m =
    m.epoch
    ∷ with_length m.id (
        with_length m.typ
          (with_length m.origin (with_length m.payload (with_length m.data_type []))))

abbrev read_message : Bytes → Outcome Message
read_message [] = fail (message [])
read_message (epoch ∷ s) =
    read_field
      (λ id. read_field (λ typ. read_field (λ origin. read_field (λ payload.
        read_field (λ data_type _. ret (record {
          epoch = epoch;
          id = id;
          typ = typ;
          origin = origin;
          payload = payload;
          data_type = data_type;
        }))))))
      s

message_back : (m : Message) → read_message (write_message m) ≡ ret m
message_back m = rw (
  take-length-append, drop-length-append, take-length-append, drop-length-append,
  take-length-append, drop-length-append, take-length-append, drop-length-append,
  take-length-append,
)

abbrev pub wire : Json
wire = record json {
  messages = record { marshal = λ m. ret (write_message m); unmarshal = read_message };
}

pub messages_back : (m : Message) → ReadsBack wire.messages m
messages_back m = reads_back wire.messages m (write_message m) refl (message_back m)

abbrev update_message : Message
update_message = record {
  epoch = 4;
  id = 1 ∷ [];
  typ = codes "update";
  origin = codes "me:1";
  payload = 1 ∷ [];
  data_type = codes "KVUpdate";
}

put_second : (put_object memory wire key second kv_prefix false [] (1 ∷ []) start).0 ≡ ret tt
unfolding put_object put_in get_buckets walk parse_path last_index split eqb emit_event emit settle
    find_named find path_eqb
put_second = refl

sent_second :
    (put_object memory wire key second kv_prefix false [] (1 ∷ []) start).1.cluster.sent
    ≡ start.cluster.sent
      ++ map (λ (p : Peer). (p.address, write_message update_message)) start.cluster.peers
unfolding put_object put_in get_buckets walk parse_path last_index split eqb emit_event emit settle
    find_named find path_eqb
sent_second = refl

heard :
    handle wire.messages false (write_message update_message)
    ≡ ret (some (to_updates, update_message))
unfolding handle route eqb
heard = refl

handled : (handle_update memory wire update_message input start).0 ≡ ret tt
unfolding handle_update apply_update put_object put_in get_buckets walk parse_path last_index split
    eqb emit_event emit settle find_named find path_eqb
handled = refl

update_back : ReadsBack wire.updates (put_update memory memory-IsBolt wire key second)
unfolding eqb
update_back =
    reads_back wire.updates (put_update memory memory-IsBolt wire key second) (1 ∷ []) refl refl

-- ===== src/Tests/Conflicts.antt =====
-- The theorem on two nodes that put the same key, with an encoding of updates by the object's time.
use cave.Base.{
  ◌≡◌, ◌≢◌, refl, ap, false, some, [], ◌∷◌, ◌++◌, map, Bytes, codes, message, Outcome, ret, fail,
  eqb, path_eqb, if◌then◌else◌, ◌==◌,
}
use cave.Path.{parse_path, last_index, split}
use cave.Types.{KvObject, KvUpdate, Message, prod}
use cave.Bolt.Memory.{memory, memory-IsBolt, settle, find_named, find}
use cave.Cluster.{emit, Peer}
use cave.Cluster.Sync.{to_updates, handle, route}
use cave.Kv.{Json, Node, put_object, get_object, put_in, get_buckets, walk, emit_event}
use cave.Kv.Updates.{kv_prefix, handle_update, apply_update}
use cave.Kv.Updates.Replicates.{put_update}
use cave.Kv.Updates.Conflicts.{get_object-crossed}
use cave.Tests.Nodes.{reads_back, key, input, first, second, start, cluster_of}
use cave.Tests.Replication.{wire as plain, messages_back, write_message}

abbrev read_timed : Bytes → Outcome KvUpdate
read_timed [] = fail (message [])
read_timed (t ∷ _) =
    ret (record {
      update_type = codes "put:key";
      key = key;
      value = if t == 5 then first else second;
    })

abbrev wire : Json
wire = record plain {
  updates = record { marshal = λ u. ret (u.value.last_updated ∷ []); unmarshal = read_timed };
}

abbrev peer_node : Node memory
peer_node = record start {
  cluster = record (cluster_of prod) {
    address = ret (codes "you:1");
    peers = record { id = 1 ∷ []; address = codes "me:1" } ∷ [];
  };
}

abbrev sent_by : Bytes → Bytes → KvObject → Message
sent_by id origin o = record {
  epoch = 4;
  id = id;
  typ = codes "update";
  origin = origin;
  payload = o.last_updated ∷ [];
  data_type = codes "KVUpdate";
}

abbrev from_start : Message
from_start = sent_by (1 ∷ []) (codes "me:1") first

abbrev from_peer : Message
from_peer = sent_by (2 ∷ []) (codes "you:1") second

put_start : (put_object memory wire key first kv_prefix false [] (1 ∷ []) start).0 ≡ ret tt
unfolding put_object put_in get_buckets walk parse_path last_index split eqb emit_event emit settle
    find_named find path_eqb
put_start = refl

put_peer : (put_object memory wire key second kv_prefix false [] (2 ∷ []) peer_node).0 ≡ ret tt
unfolding put_object put_in get_buckets walk parse_path last_index split eqb emit_event emit settle
    find_named find path_eqb
put_peer = refl

sent_start :
    (put_object memory wire key first kv_prefix false [] (1 ∷ []) start).1.cluster.sent
    ≡ start.cluster.sent
      ++ map (λ (p : Peer). (p.address, write_message from_start)) start.cluster.peers
unfolding put_object put_in get_buckets walk parse_path last_index split eqb emit_event emit settle
    find_named find path_eqb
sent_start = refl

sent_peer :
    (put_object memory wire key second kv_prefix false [] (2 ∷ []) peer_node).1.cluster.sent
    ≡ peer_node.cluster.sent
      ++ map (λ (p : Peer). (p.address, write_message from_peer)) peer_node.cluster.peers
unfolding put_object put_in get_buckets walk parse_path last_index split eqb emit_event emit settle
    find_named find path_eqb
sent_peer = refl

heard_start :
    handle wire.messages false (write_message from_start) ≡ ret (some (to_updates, from_start))
unfolding handle route eqb
heard_start = refl

heard_peer :
    handle wire.messages false (write_message from_peer) ≡ ret (some (to_updates, from_peer))
unfolding handle route eqb
heard_peer = refl

handled_start :
    (handle_update memory wire from_peer input
      (put_object memory wire key first kv_prefix false [] (1 ∷ []) start).1).0
    ≡ ret tt
unfolding handle_update apply_update put_object put_in get_buckets walk parse_path last_index split
    eqb emit_event emit settle find_named find path_eqb
handled_start = refl

handled_peer :
    (handle_update memory wire from_start input
      (put_object memory wire key second kv_prefix false [] (2 ∷ []) peer_node).1).0
    ≡ ret tt
unfolding handle_update apply_update put_object put_in get_buckets walk parse_path last_index split
    eqb emit_event emit settle find_named find path_eqb
handled_peer = refl

first-second : first ≢ second
first-second e = cc (ap (λ (o : KvObject). o.last_updated) e)

get_object-crossed_example :
    let a =
      (handle_update memory wire from_peer input
        (put_object memory wire key first kv_prefix false [] (1 ∷ []) start).1).1 in
    let b =
      (handle_update memory wire from_start input
        (put_object memory wire key second kv_prefix false [] (2 ∷ []) peer_node).1).1 in
    (get_object memory wire key kv_prefix a ≡ ret second)
    × (get_object memory wire key kv_prefix b ≡ ret first)
    × (get_object memory wire key kv_prefix a ≢ get_object memory wire key kv_prefix b)
get_object-crossed_example =
    get_object-crossed memory memory-IsBolt wire key first second false false [] [] (1 ∷ [])
      (2 ∷ []) start peer_node input input (write_message from_start) (write_message from_peer)
      first-second refl refl refl refl refl refl
      (reads_back wire.objects first (5 ∷ 0 ∷ 9 ∷ []) refl refl)
      (reads_back wire.objects second (6 ∷ 0 ∷ 8 ∷ 8 ∷ []) refl refl)
      (reads_back wire.updates (put_update memory memory-IsBolt wire key first) (5 ∷ []) refl refl)
      (reads_back wire.updates (put_update memory memory-IsBolt wire key second) (6 ∷ []) refl refl)
      (λ o p _ _. messages_back _) (λ o p _ _. messages_back _) put_start put_peer sent_start
      sent_peer heard_start heard_peer handled_start handled_peer

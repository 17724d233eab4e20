-- ===== src/Tests/Nodes.antt =====
-- A store in memory, toy encodings and one node with one peer.
use cave.Base.{
  ◌≡◌, sym, ◌∙◌, if◌then◌else◌, true, false, [], ◌∷◌, Bytes, codes, length, take, message, Outcome,
  ret, fail, ret-inj, subst, eqb,
}
use cave.Types.{Lock, KvObject, KvUpdate, Mode, prod, Codec, ReadsBack}
use cave.Bolt.{bucket}
use cave.Bolt.Memory.{memory}
use cave.Cluster.{Cluster}
use cave.Kv.{Json, Node, put_object}
use cave.Kv.Locks.{LockInput, new_lock}
use cave.Kv.Updates.{kv_prefix}

pub reads_back :
    {A : Type 0} (c : Codec A) (a : A) (b : Bytes)
    → c.marshal a ≡ ret b
    → c.unmarshal b ≡ ret a
    → ReadsBack c a
reads_back c a b e f b' h = subst (λ x. c.unmarshal x ≡ ret a) (ret-inj (sym e ∙ h)) f

abbrev pub key : Bytes
key = codes "a/b"

abbrev pub other : Bytes
other = codes "c"

abbrev pub input : LockInput
input = record {
  machine_id = 1 ∷ [];
  lock_id = 7 ∷ [];
  message_id = 2 ∷ [];
  claimed = 10;
  now = 11;
}

abbrev pub held : Lock
held = new_lock key kv_prefix (codes "me:1") input

abbrev pub later : LockInput
later = record input { lock_id = 8 ∷ []; message_id = 3 ∷ []; claimed = 20; now = 21 }

abbrev pub held_later : Lock
held_later = new_lock key kv_prefix (codes "me:1") later

abbrev pub read_object : Bytes → Outcome KvObject
read_object [] = fail (message [])
read_object (t ∷ []) = fail (message [])
read_object (t ∷ k ∷ v) = ret (record {
  last_updated = t;
  secret = false;
  value = v;
  locks = take k (held ∷ held_later ∷ []);
  plaintext = false;
})

abbrev pub first : KvObject
first = record { last_updated = 5; secret = false; value = 9 ∷ []; locks = []; plaintext = false }

abbrev pub second : KvObject
second = record {
  last_updated = 6;
  secret = false;
  value = 8 ∷ 8 ∷ [];
  locks = [];
  plaintext = false;
}

abbrev pub read_update : Bytes → Outcome KvUpdate
read_update b =
    if eqb b (1 ∷ [])
    then ret (record { update_type = codes "put:key"; key = key; value = second })
    else if eqb b (2 ∷ [])
    then ret (record { update_type = codes "lock:delete"; key = key; value = first })
    else if eqb b (3 ∷ [])
    then ret (record { update_type = codes "delete:key"; key = other; value = first })
    else fail (message [])

abbrev pub json : Json
json = record {
  objects = record {
    marshal = λ o. ret (o.last_updated ∷ length o.locks ∷ o.value);
    unmarshal = read_object;
  };
  updates = record { marshal = λ u. ret (1 ∷ []); unmarshal = read_update };
  lock_codec = record { marshal = λ l. ret []; unmarshal = λ b. ret held };
  messages = record {
    marshal = λ m. ret (m.epoch ∷ m.payload);
    unmarshal = λ b. fail (message []);
  };
  is_json = λ b. true;
}

abbrev pub cluster_of : Mode → Cluster
cluster_of m = record {
  mode = m;
  address = ret (codes "me:1");
  advertise_host = codes "me:1";
  epoch = 3;
  peers = record { id = 0 ∷ []; address = codes "you:1" } ∷ [];
  location_table = [];
  gen_rsa = false;
  sent = [];
}

-- newKV creates the bucket of the prefix.
abbrev pub start : Node memory
start = record { db = ([], kv_prefix, bucket) ∷ []; cluster = cluster_of prod }

abbrev pub put_first : Node memory
put_first = (put_object memory json key first kv_prefix false [] (1 ∷ []) start).1

abbrev pub put_both : Node memory
put_both = (put_object memory json other second kv_prefix false (false ∷ []) (1 ∷ []) put_first).1

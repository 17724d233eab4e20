-- ===== src/Tests/Api.antt =====
-- The theorems on the API at concrete requests.
use cave.Base.{
  ◌≡◌, refl, Bool, true, false, [], ◌∷◌, Bytes, codes, message, Outcome, ret, fail, eqb, path_eqb,
  ◌++◌,
}
use cave.Path.{has_suffix, trim_path, parse_path, last_index, split}
use cave.Types.{KvObject, ReadsBack}
use cave.Bolt.Memory.{memory, memory-IsBolt, settle, find_named, find}
use cave.Cluster.{emit}
use cave.Crypto.{encryt_json, sealed}
use cave.Kv.{Json, put, put_object, put_in, get_buckets, walk, emit_event}
use cave.Api.{Request, answer, note, blob, kv_url, kv_get_handler, kv_put_handler}
use cave.Kv.Value.{stored_object}
use cave.Api.Laws.{
  IsKeyRequest, kv_get_handler-kv_put_handler, kv_get_handler-kv_put_handler_secret,
}
use cave.Tests.Nodes.{reads_back, json, start}
use cave.Tests.Crypto.{plain, plain-IsAead, key, key-IsKey, codecs, secrets_back}

abbrev pub bit : Bool → Bytes → Bytes
bit false v = 0 ∷ v
bit true v = 1 ∷ v

abbrev pub read_stored : Bytes → Outcome KvObject
read_stored (t ∷ s ∷ v) = ret (record {
  last_updated = t;
  secret = eqb (s ∷ []) (1 ∷ []);
  value = v;
  locks = [];
  plaintext = false;
})
read_stored _ = fail (message [])

abbrev pub api_json : Json
api_json = record json {
  objects = record {
    marshal = λ o. ret (o.last_updated ∷ bit o.secret o.value);
    unmarshal = read_stored;
  };
}

pub objects_back :
    (v : Bytes) (s : Bool) → ReadsBack api_json.objects (stored_object api_json v s 5)
unfolding eqb
objects_back v false =
    reads_back api_json.objects (stored_object api_json v false 5) (5 ∷ 0 ∷ v) refl refl
objects_back v true =
    reads_back api_json.objects (stored_object api_json v true 5) (5 ∷ 1 ∷ v) refl refl

abbrev pub request : Bytes → Request
request secret = record {
  method = codes "POST";
  path = kv_url ++ codes "a/b";
  tree = [];
  secret = secret;
  body = ret (8 ∷ []);
  now = 5;
  message_id = 1 ∷ [];
}

pub for_key : (secret : Bytes) → IsKeyRequest (codes "a/b") (request secret)
unfolding trim_path has_suffix
for_key secret = record { trimmed = refl; no_slash = refl; nonempty = λ e. cc; no_tree = refl }

put_ok :
    (kv_put_handler memory api_json plain codecs key (request []) start).0
    ≡ ret (answer 200 (note (codes "ok")))
unfolding kv_put_handler trim_path put put_object put_in get_buckets walk parse_path last_index
    split eqb emit_event emit settle find_named find path_eqb
put_ok = refl

kv_get_handler-kv_put_handler_example :
    kv_get_handler memory api_json plain codecs key 9
      (request [])
      (kv_put_handler memory api_json plain codecs key (request []) start).1
    ≡ ret (answer 200 (blob (8 ∷ [])))
kv_get_handler-kv_put_handler_example =
    kv_get_handler-kv_put_handler memory memory-IsBolt api_json plain codecs key 9 (codes "a/b")
      (8 ∷ []) (request []) (request []) start (for_key []) (for_key []) objects_back refl refl refl
      (λ e. cc) put_ok refl

abbrev yes : Bytes
yes = 1 ∷ []

put_secret_ok :
    (kv_put_handler memory api_json plain codecs key (request yes) start).0
    ≡ ret (answer 200 (note (codes "ok")))
unfolding kv_put_handler trim_path put encryt_json sealed put_object put_in get_buckets walk
    parse_path last_index split eqb emit_event emit settle find_named find path_eqb
put_secret_ok = refl

kv_get_handler-kv_put_handler_secret_example :
    kv_get_handler memory api_json plain codecs key 9
      (request yes)
      (kv_put_handler memory api_json plain codecs key (request yes) start).1
    ≡ ret (answer 200 (blob (8 ∷ [])))
kv_get_handler-kv_put_handler_secret_example =
    kv_get_handler-kv_put_handler_secret memory memory-IsBolt api_json plain codecs key 9
      (codes "a/b") (8 ∷ []) (request yes) (request yes) start plain-IsAead key-IsKey
      (reads_back codecs.blobs (8 ∷ []) (8 ∷ []) refl refl) secrets_back refl (for_key yes)
      (for_key yes) objects_back (λ e. cc) (λ e. cc) refl put_secret_ok refl

-- ===== src/Tests/Query.antt =====
-- The theorems on multiQueryHandler at a request that stores a value and reads it.
use mathlib.Core.List.{Perm}
use mathlib.Core.List.Perm
use cave.Base.{◌≡◌, refl, false, true, List, [], ◌∷◌, Bytes, codes, ret, panic, ◌≢◌, eqb, path_eqb}
use cave.Path.{parse_path, last_index, split}
use cave.Bolt.Memory.{memory, memory-IsBolt, settle, find_named, find}
use cave.Cluster.{emit}
use cave.Crypto.{decrypt_json, open_prefixed}
use cave.Kv.{Node, put, put_object, put_in, get_buckets, walk, emit_event}
use cave.Kv.Updates.{kv_prefix}
use cave.Api.Query.{QueryObject, MultiQuery, QueryCodecs, QueryInput, do_get, do_post}
use cave.Api.Query.Reads.{do_get-do_post}
use cave.Tests.Nodes.{start}
use cave.Tests.Api.{api_json, objects_back}
use cave.Tests.Crypto.{plain, key, codecs}

abbrev text : Bytes
text = 0 ∷ 1 ∷ 2 ∷ 8 ∷ []

abbrev writes : QueryObject
writes = record { key = codes "a/b"; verb = codes "POST"; value = text; secret = false; error = [] }

abbrev reads : QueryObject
reads = record { key = codes "a/b"; verb = codes "GET"; value = []; secret = true; error = [] }

abbrev request : MultiQuery
request = record { id = []; query = writes ∷ reads ∷ []; query_errors = false }

abbrev query_codecs : QueryCodecs
query_codecs = record {
  texts = codecs.blobs;
  queries = record { marshal = λ m. ret (7 ∷ []); unmarshal = λ b. ret request };
  to_upper = λ v. v;
  error_text = λ e. 1 ∷ [];
}

abbrev query_input : QueryInput
query_input = record { now = 5; message_id = 1 ∷ []; id = 3 ∷ [] }

abbrev written : Node memory
written = (put memory api_json (codes "a/b") text kv_prefix false [] 5 (1 ∷ []) start).1

posted :
    do_post memory api_json plain codecs key query_codecs writes query_input start
    ≡ (ret writes, written)
unfolding do_post put put_object put_in get_buckets walk parse_path last_index split eqb emit_event
    emit settle find_named find path_eqb
posted = refl

decrypts : decrypt_json plain codecs key text ≢ panic
unfolding decrypt_json open_prefixed
decrypts e = cc

do_get-do_post_example :
    do_get memory api_json plain codecs key query_codecs reads written
    ≡ ret (record reads { value = text })
do_get-do_post_example =
    do_get-do_post memory memory-IsBolt api_json plain codecs key query_codecs writes reads
      query_input start objects_back (λ e p. cc) refl (λ p. cc) decrypts refl posted refl

abbrev plainly : QueryObject
plainly = record reads { secret = false }

abbrev two_reads : MultiQuery
two_reads = record { id = []; query = reads ∷ plainly ∷ []; query_errors = false }

abbrev read_codecs : QueryCodecs
read_codecs = record query_codecs {
  queries = record { marshal = λ m. ret (7 ∷ []); unmarshal = λ b. ret two_reads };
}

abbrev swap_two : List QueryObject → List QueryObject
swap_two [] = []
swap_two (x ∷ []) = x ∷ []
swap_two (x ∷ y ∷ l) = y ∷ x ∷ l

abbrev with_text : QueryObject → QueryObject
with_text q = record q { value = text }

abbrev IsGet : QueryObject → Type 0
IsGet q =
    (read_codecs.to_upper q.verb ≡ codes "GET")
    × (do_get memory api_json plain codecs key read_codecs q written ≡ ret (with_text q))

-- ===== src/Api/Query.antt =====
-- api.go multiQueryHandler: many operations in one request.
pub mod Laws
pub mod Reads
use cave.Base.{
  Bool, false, not, ◌||◌, List, [], ◌∷◌, ◌++◌, Bytes, codes, eqb, if◌then◌else◌, Err, Outcome, ret,
  fail, panic, Exec, ◌>>=◌, pure, lift,
}
use cave.Types.{Time, Codec}
use cave.Bolt.{Bolt}
use cave.Crypto.{AesKey, Ciphers, CryptoCodecs, encryt_json, decrypt_json}
use cave.Kv.{Json, Node, put, get, delete_key}
use cave.Kv.Updates.{kv_prefix}
use cave.Api.{Response, answer, blob, catch}

pub record QueryObject : Type 0 where
  pub key : Bytes
  pub verb : Bytes
  pub value : Bytes
  pub secret : Bool
  pub error : Bytes

-- The errors that multiQueryHandler answers with are in its status.
pub record MultiQuery : Type 0 where
  pub id : Bytes
  pub query : List QueryObject
  pub query_errors : Bool

-- What the handler takes from libraries: json at a string and at MultiQuery, strings.ToUpper, and
-- the text that an error prints.
pub record QueryCodecs : Type 0 where
  pub texts : Codec Bytes
  pub queries : Codec MultiQuery
  pub to_upper : Bytes → Bytes
  pub error_text : Err → Bytes

-- The clock and the UUIDs that the operations and the answer get.
pub record QueryInput : Type 0 where
  pub now : Time
  pub message_id : Bytes
  pub id : Bytes

abbrev pub with_error : QueryObject → Bytes → QueryObject
with_error q e = record q { error = e }

abbrev pub any_error : List QueryObject → Bool
any_error [] = false
any_error (q ∷ qs) = not (eqb q.error []) || any_error qs

module _ (B : Bolt) (J : Json) (C : Ciphers) (K : CryptoCodecs) (sharedkey : AesKey)
    (Q : QueryCodecs) where
  -- The object with the outcome of a call on it, as it is sent to the result channel.
  abbrev pub reported :
      {A : Type 0} → QueryObject → Outcome A → (A → Outcome QueryObject) → Outcome QueryObject
  reported q (ret a) f = f a
  reported q (fail e) f = ret (with_error q (Q.error_text e))
  reported q panic f = panic

  -- Whatever decryptJSON gives is overwritten by the stored text, unless it panics.
  abbrev pub read_value : QueryObject → Bytes → Outcome Bytes → Outcome QueryObject
  read_value q b panic = panic
  read_value q b (ret d) = ret (record q { value = b })
  read_value q b (fail e) = ret (record q { value = b })

  abbrev pub found_value : QueryObject → Bytes → Outcome QueryObject
  found_value q [] = ret (with_error q (codes "Key " ++ (q.key ++ codes " does not exist")))
  found_value q (x ∷ b) =
      if q.secret
      then read_value q (x ∷ b) (decrypt_json C K sharedkey (x ∷ b))
      else ret (record q { value = x ∷ b })

  unfoldable pub do_get : QueryObject → Node B → Outcome QueryObject
  do_get q n = reported q (get B J q.key kv_prefix n) (found_value q)

  abbrev pub post_text : QueryObject → Outcome Bytes
  post_text q = if q.secret then encryt_json C K Q.texts sharedkey q.value else ret q.value

  abbrev pub put_text_of : QueryObject → QueryInput → Outcome Bytes → Exec (Node B) QueryObject
  put_text_of q i (fail e) n = (ret (with_error q (Q.error_text e)), n)
  put_text_of q i panic n = (panic, n)
  put_text_of q i (ret buf) n =
      let (r, n') = put B J q.key buf kv_prefix q.secret [] i.now i.message_id n in
      (reported q r (λ _. ret q), n')

  unfoldable pub do_post : QueryObject → QueryInput → Exec (Node B) QueryObject
  do_post q i n = put_text_of q i (post_text q) n

  unfoldable pub do_delete : QueryObject → QueryInput → Exec (Node B) QueryObject
  do_delete q i n =
      let (r, n') = delete_key B J q.key kv_prefix [] i.message_id n in
      (reported q r (λ _. ret q), n')

  -- The switch on the verb.
  unfoldable pub run_query : QueryInput → QueryObject → Exec (Node B) QueryObject
  unfolding do_get do_post do_delete
  run_query i q =
      let verb = Q.to_upper q.verb in
      if eqb verb (codes "GET")
      then (λ n. (do_get q n, n))
      else if eqb verb (codes "PUT") || eqb verb (codes "POST")
      then do_post q i
      else if eqb verb (codes "DELETE")
      then do_delete q i
      else pure (with_error q (codes "Verb " ++ (q.verb ++ codes " is not a valid operation")))

  -- The goroutines, one after the other: the results in the order of the operations.
  unfoldable pub run_queries : QueryInput → List QueryObject → Exec (Node B) (List QueryObject)
  unfolding run_query
  run_queries i [] = pure []
  run_queries i (q ∷ qs) = do r ← run_query i q; rs ← run_queries i qs; pure (r ∷ rs)

  abbrev pub query_status : Bool → Outcome Bytes → Outcome Response
  query_status errors (ret b) = ret (answer (if errors then 400 else 200) (blob b))
  query_status errors (fail e) = ret (answer 400 (blob []))
  query_status errors panic = panic

  abbrev pub query_answer : QueryInput → List QueryObject → Outcome Response
  query_answer i rs =
      query_status (any_error rs)
        (Q.queries.marshal (record { id = i.id; query = rs; query_errors = any_error rs }))

  -- multiQueryHandler; `order` is the order in which the scheduler lets the goroutines do their
  -- operations, `arrives` the one in which their results come into the channel, which need not be the
  -- same. An operation is one step: that others run between the parts of one is left out.
  unfoldable pub multi_query_handler :
      (order arrives : List QueryObject → List QueryObject)
      → Outcome Bytes
      → QueryInput
      → Exec (Node B) Response
  unfolding run_queries
  multi_query_handler order arrives body i =
      catch (λ _. 400) body
        (λ buf.
          catch (λ _. 400) (Q.queries.unmarshal buf)
            (λ mq. do rs ← run_queries i (order mq.query); lift (query_answer i (arrives rs))))

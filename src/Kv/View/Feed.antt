-- ===== src/Kv/View/Feed.antt =====
-- kv.go start: the loop of a node that hears every change of another one, in order.
use cave.Base.{
  codes, ◌≡◌, ◌≢◌, refl, ap, sym, ◌∙◌, List, [], ◌∷◌, ◌++◌, Bool, Bytes, Err, ret, fail, panic,
  Outcome,
}
use cave.Types.{KvObject, Message, ReadsBack}
use cave.Bolt.{Bolt, IsBolt}
use cave.Kv.{Json, Node, put_object, delete_key}
use cave.Kv.Reach.{IsShaped}
use cave.Kv.Locks.{LockInput}
use cave.Kv.Updates.{kv_prefix, handle_update, handle_all, go_on}
use cave.Kv.View.{view}
use cave.Kv.View.Refines.{Edit, Trace, start, put, delete, hear_put, hear_delete}
use cave.Kv.View.Agree.{Trace-agree}

module _ (B : Bolt) (L : IsBolt B) (J : Json) where
  -- A node `n` that is asked for puts that succeed, of objects that survive their encoding, and for
  -- deletions with any result, and a node `n'` that handles a message of each in turn, the puts without
  -- an error and the deletions without a panic; with the messages.
  pub data Feed (n n' : Node B) : Node B → Node B → List (Message × LockInput) → Type 0 where
    begin : Feed n n' n n' []
    feed_put :
        {m m' : Node B} {ms : List (Message × LockInput)} (key : Bytes) (o : KvObject)
        (secret : Bool) (e : List Bool) (id : Bytes) (msg : Message) (i : LockInput)
        → Feed n n' m m' ms
        → ReadsBack J.objects o
        → (put_object B J key o kv_prefix secret e id m).0 ≡ ret tt
        → J.updates.unmarshal msg.payload
          ≡ ret (record { update_type = codes "put:key"; key = key; value = o })
        → (handle_update B J msg i m').0 ≡ ret tt
        → Feed n n'
            (put_object B J key o kv_prefix secret e id m).1
            (handle_update B J msg i m').1
            (ms ++ (msg, i) ∷ [])
    feed_delete :
        {m m' : Node B} {ms : List (Message × LockInput)} (key : Bytes) (o : KvObject)
        (e : List Bool) (id : Bytes) (msg : Message) (i : LockInput)
        → Feed n n' m m' ms
        → J.updates.unmarshal msg.payload
          ≡ ret (record { update_type = codes "delete:key"; key = key; value = o })
        → (handle_update B J msg i m').0 ≢ panic
        → Feed n n'
            (delete_key B J key kv_prefix e id m).1
            (handle_update B J msg i m').1
            (ms ++ (msg, i) ∷ [])

  -- Both nodes have gone through the same edits.
  Feed-Trace :
      {n n' m m' : Node B} {ms : List (Message × LockInput)}
      → Feed n n' m m' ms
      → (es : List Edit) × Trace B L J kv_prefix n m es × Trace B L J kv_prefix n' m' es
  Feed-Trace begin = ([], start, start)
  Feed-Trace (feed_put key o secret e id msg i f back ok d done) =
      let (es, t, t') = Feed-Trace f in
      (_, put key o secret e id t back ok, hear_put key o msg i t' refl d back done)
  Feed-Trace (feed_delete key o e id msg i f d safe) =
      let (es, t, t') = Feed-Trace f in (_, delete key e id t, hear_delete key o msg i t' refl d)

  go_on_assoc :
      (x : Outcome (Unit {0}) × Node B) (xs ys : List (Message × LockInput))
      → ((n : Node B)
          → handle_all B J (xs ++ ys) n ≡ go_on B J (handle_all B J xs n) (handle_all B J ys))
      → go_on B J x (handle_all B J (xs ++ ys))
        ≡ go_on B J (go_on B J x (handle_all B J xs)) (handle_all B J ys)
  go_on_assoc (ret u, n) xs ys h = h n
  go_on_assoc (fail e, n) xs ys h = h n
  go_on_assoc (panic, n) xs ys h = refl

  handle_all-append :
      (xs ys : List (Message × LockInput)) (n : Node B)
      → handle_all B J (xs ++ ys) n ≡ go_on B J (handle_all B J xs n) (handle_all B J ys)
  unfolding handle_all
  handle_all-append [] ys n = refl
  handle_all-append ((msg, i) ∷ xs) ys n =
      go_on_assoc (handle_update B J msg i n) xs ys (handle_all-append xs ys)

  go_on-pure :
      (x : Outcome (Unit {0}) × Node B)
      → x.0 ≢ panic
      → go_on B J x (handle_all B J []) ≡ (ret tt, x.1)
  unfolding handle_all
  go_on-pure (ret u, n) h = refl
  go_on-pure (fail e, n) h = refl
  go_on-pure (panic, n) h = absurd (h refl)

  handle_all-snoc :
      (ms : List (Message × LockInput)) (msg : Message) (i : LockInput) (n' m' : Node B)
      → handle_all B J ms n' ≡ (ret tt, m')
      → (handle_update B J msg i m').0 ≢ panic
      → handle_all B J (ms ++ (msg, i) ∷ []) n' ≡ (ret tt, (handle_update B J msg i m').1)
  handle_all-snoc ms msg i n' m' h safe =
      handle_all-append ms ((msg, i) ∷ []) n'
      ∙ ap (λ (x : Outcome (Unit {0}) × Node B). go_on B J x (handle_all B J ((msg, i) ∷ []))) h
      ∙ unfold handle_all in go_on-pure (handle_update B J msg i m') safe

  Feed-handle_all :
      {n n' m m' : Node B} {ms : List (Message × LockInput)}
      → Feed n n' m m' ms
      → handle_all B J ms n' ≡ (ret tt, m')
  Feed-handle_all begin = unfold handle_all in refl
  Feed-handle_all {n'} (feed_put {m' = m'} {ms = ms} key o secret e id msg i f back ok d done) =
      handle_all-snoc ms msg i n' m' (Feed-handle_all f) (λ p. cc)
  Feed-handle_all {n'} (feed_delete {m' = m'} {ms = ms} key o e id msg i f d safe) =
      handle_all-snoc ms msg i n' m' (Feed-handle_all f) safe

  -- A node is asked for puts, which succeed, of objects that survive their encoding, and for deletions,
  -- with any result; another node, which showed the same for every key before, runs start on a message
  -- of each, in order, and handles those of puts without an error and those of deletions without a
  -- panic. Then start has taken all the messages, and the nodes show the same for every key again, if
  -- their stores had their shape at the start and json.Unmarshal refuses the empty text.
  pub handle_all-agree :
      {n n' m m' : Node B} {ms : List (Message × LockInput)} {x : Err}
      → J.objects.unmarshal [] ≡ fail x
      → IsShaped B L J n
      → IsShaped B L J n'
      → ((key : Bytes) → view B L J kv_prefix n key ≡ view B L J kv_prefix n' key)
      → Feed n n' m m' ms
      → (handle_all B J ms n' ≡ (ret tt, m'))
        × ((key : Bytes)
            → view B L J kv_prefix m key ≡ view B L J kv_prefix (handle_all B J ms n').1 key)
  handle_all-agree {n} {n'} {m} {m'} {ms} {x} empty h h' same f =
      let (es, t, t') = Feed-Trace f in
      let done = Feed-handle_all f in
      (
        done,
        λ key.
            Trace-agree B L J kv_prefix {x = x} empty h h' same t t' key
            ∙ sym (ap (λ (y : Outcome (Unit {0}) × Node B). view B L J kv_prefix y.1 key) done),
      )

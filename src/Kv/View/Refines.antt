-- ===== src/Kv/View/Refines.antt =====
-- The engine against a map from keys to objects.
use cave.Base.{
  codes, sym, subst, ◌≡◌, refl, ap, ◌∙◌, Bool, false, none, some, List, [], ◌∷◌, Bytes, eqb, Err,
  ret, fail, if◌then◌else◌,
}
use cave.Types.{KvObject, Message, ReadsBack}
use cave.Bolt.{Bolt, IsBolt}
use cave.Kv.{Json, Node, put_object, delete_key}
use cave.Kv.Reach.{IsShaped, puts, deletes, hears, Step-IsShaped}
use cave.Kv.Locks.{LockInput}
use cave.Kv.Updates.{kv_prefix, handle_update}
use cave.Kv.Updates.Laws.{handle_update-put_object, handle_update-delete_key}
use cave.Kv.View.{Content, view}
use cave.Kv.View.Puts.{view-put_object}
use cave.Kv.View.Deletes.{view-delete_key}

-- The two changes of the abstract map.
pub data Edit : Type 0 where
  set : Bytes → KvObject → Edit
  unset : Bytes → Edit

-- The map after the edits, of which the last comes first.
unfoldable pub content : List Edit → Content → Content
content [] f key = f key
content (set k o ∷ es) f key = if eqb k key then some o else content es f key
content (unset k ∷ es) f key = if eqb k key then none else content es f key

module _ (B : Bolt) (L : IsBolt B) (J : Json) (prefix : Bytes) where
  -- A run of the engine: puts that succeed, of objects that survive their encoding, and deletions with
  -- any result, each asked for at this node or heard from another one, with its edit.
  pub data Trace (n : Node B) : Node B → List Edit → Type 0 where
    start : Trace n n []
    put :
        {m : Node B} {es : List Edit} (key : Bytes) (o : KvObject) (secret : Bool) (e : List Bool)
        (id : Bytes)
        → Trace n m es
        → ReadsBack J.objects o
        → (put_object B J key o prefix secret e id m).0 ≡ ret tt
        → Trace n (put_object B J key o prefix secret e id m).1 (set key o ∷ es)
    delete :
        {m : Node B} {es : List Edit} (key : Bytes) (e : List Bool) (id : Bytes)
        → Trace n m es
        → Trace n (delete_key B J key prefix e id m).1 (unset key ∷ es)
    hear_put :
        {m : Node B} {es : List Edit} (key : Bytes) (o : KvObject) (msg : Message) (i : LockInput)
        → Trace n m es
        → prefix ≡ kv_prefix
        → J.updates.unmarshal msg.payload
          ≡ ret (record { update_type = codes "put:key"; key = key; value = o })
        → ReadsBack J.objects o
        → (handle_update B J msg i m).0 ≡ ret tt
        → Trace n (handle_update B J msg i m).1 (set key o ∷ es)
    hear_delete :
        {m : Node B} {es : List Edit} (key : Bytes) (o : KvObject) (msg : Message) (i : LockInput)
        → Trace n m es
        → prefix ≡ kv_prefix
        → J.updates.unmarshal msg.payload
          ≡ ret (record { update_type = codes "delete:key"; key = key; value = o })
        → Trace n (handle_update B J msg i m).1 (unset key ∷ es)

  view-handle_update_put :
      (k key : Bytes) (o : KvObject) (msg : Message) (i : LockInput) (m : Node B) {x : Err}
      → J.objects.unmarshal [] ≡ fail x
      → prefix ≡ kv_prefix
      → J.updates.unmarshal msg.payload
        ≡ ret (record { update_type = codes "put:key"; key = k; value = o })
      → ReadsBack J.objects o
      → IsShaped B L J m
      → (handle_update B J msg i m).0 ≡ ret tt
      → view B L J prefix (handle_update B J msg i m).1 key
        ≡ (if eqb k key then some o else view B L J prefix m key)
  view-handle_update_put k key o msg i m {x} empty same d back h ok =
      let e = handle_update-put_object B L J k o msg i m d in
      subst
        (λ p.
          view B L J p (handle_update B J msg i m).1 key
          ≡ (if eqb k key then some o else view B L J p m key))
        (sym same)
        (rw e (
          view-put_object B L J kv_prefix k key o o.secret (false ∷ []) i.message_id m {x = x} empty
            back h (rw e at ok)))

  view-handle_update_delete :
      (k key : Bytes) (o : KvObject) (msg : Message) (i : LockInput) (m : Node B) {x : Err}
      → J.objects.unmarshal [] ≡ fail x
      → prefix ≡ kv_prefix
      → J.updates.unmarshal msg.payload
        ≡ ret (record { update_type = codes "delete:key"; key = k; value = o })
      → view B L J prefix (handle_update B J msg i m).1 key
        ≡ (if eqb k key then none else view B L J prefix m key)
  view-handle_update_delete k key o msg i m {x} empty same d =
      let e = handle_update-delete_key B L J k o msg i m d in
      subst
        (λ p.
          view B L J p (handle_update B J msg i m).1 key
          ≡ (if eqb k key then none else view B L J p m key))
        (sym same)
        (rw e (view-delete_key B L J kv_prefix k key (false ∷ []) i.message_id m {x = x} empty))

  Trace-IsShaped :
      {n m : Node B} {es : List Edit} → IsShaped B L J n → Trace n m es → IsShaped B L J m
  Trace-IsShaped h start = h
  Trace-IsShaped h (put key o secret e id t back ok) =
      Step-IsShaped B L J (puts key o prefix secret e id) (Trace-IsShaped h t)
  Trace-IsShaped h (delete key e id t) =
      Step-IsShaped B L J (deletes key prefix e id) (Trace-IsShaped h t)
  Trace-IsShaped h (hear_put key o msg i t same d back ok) =
      Step-IsShaped B L J (hears msg i) (Trace-IsShaped h t)
  Trace-IsShaped h (hear_delete key o msg i t same d) =
      Step-IsShaped B L J (hears msg i) (Trace-IsShaped h t)

  -- After any run of puts that succeed, of objects that survive their encoding, and deletions with any
  -- result, each asked for at the node or heard from another one, GetObject shows for every key what
  -- the map does after the same edits, if the store had its shape at the start and json.Unmarshal
  -- refuses the empty text.
  pub Trace-content :
      {n m : Node B} {es : List Edit} {x : Err}
      → J.objects.unmarshal [] ≡ fail x
      → IsShaped B L J n
      → Trace n m es
      → (key : Bytes) → view B L J prefix m key ≡ content es (view B L J prefix n) key
  unfolding content
  Trace-content empty h start key = refl
  Trace-content {n} {x} empty h (put {m} {es} k o secret e id t back ok) key =
      view-put_object B L J prefix k key o secret e id m {x = x} empty back (Trace-IsShaped h t) ok
      ∙ ap (λ w. if eqb k key then some o else w) (Trace-content {x = x} empty h t key)
  Trace-content {n} {x} empty h (delete {m} {es} k e id t) key =
      view-delete_key B L J prefix k key e id m {x = x} empty
      ∙ ap (λ w. if eqb k key then none else w) (Trace-content {x = x} empty h t key)
  Trace-content {n} {x} empty h (hear_put {m} {es} k o msg i t same d back ok) key =
      view-handle_update_put k key o msg i m {x = x} empty same d back (Trace-IsShaped h t) ok
      ∙ ap (λ w. if eqb k key then some o else w) (Trace-content {x = x} empty h t key)
  Trace-content {n} {x} empty h (hear_delete {m} {es} k o msg i t same d) key =
      view-handle_update_delete k key o msg i m {x = x} empty same d
      ∙ ap (λ w. if eqb k key then none else w) (Trace-content {x = x} empty h t key)

-- ===== src/Kv.antt =====
-- kv.go: the key-value engine over the store. An operation runs on the `Node`, which is the store
-- and the cluster that updates are broadcast to. The codecs are those of encoding/json; the
-- timings that every operation reports to Prometheus, and what is only logged, are left out.
pub mod Locks
pub mod Updates
mod Walk
pub mod Shape
pub mod Depth
pub mod PutIn
mod DeleteIn
pub mod Put
pub mod Value
pub mod Frame
pub mod Delete
pub mod Tree
pub mod Open
pub mod Gauges
pub mod Reports
pub mod Reach
pub mod View
use cave.Base.{
  Bool, true, false, Option, none, some, List, [], ◌∷◌, ◌++◌, Bytes, codes, if◌then◌else◌, Err,
  message, Outcome, ret, fail, panic, Exec, ◌>>=◌, ◌>>◌, ◌>>?◌, pure, lift,
}
use cave.Path.{parse_path}
use cave.Types.{Time, Lock, KvObject, zero_object, KvUpdate, Message, Codec}
use cave.Bolt.{Handle, Bolt}
use cave.Cluster.{Cluster, emit}

-- json.Marshal and json.Unmarshal at the types of this file; `is_json` is whether a text parses.
pub record Json : Type 0 where
  pub objects : Codec KvObject
  pub updates : Codec KvUpdate
  pub lock_codec : Codec Lock
  pub messages : Codec Message
  pub is_json : Bytes → Bool

pub record Node (B : Bolt) : Type 0 where
  pub db : B.State
  pub cluster : Cluster

-- A method of the nil bucket panics.
abbrev pub deref : Option Handle → Outcome Handle
deref none = panic
deref (some h) = ret h

-- e ...bool: whether to broadcast, by default yes
abbrev pub emit_flag : List Bool → Bool
emit_flag [] = true
emit_flag (b ∷ _) = b

abbrev pub no_bucket : Bytes → Err
no_bucket b = message (codes "Bucket " ++ (b ++ codes " does not exist"))

-- A missing value is nil, which is the empty text.
abbrev pub bytes_of : Option Bytes → Bytes
bytes_of none = []
bytes_of (some v) = v

-- An error of View is dropped: json.Unmarshal then sees the empty text.
abbrev pub read_or_empty : Outcome Bytes → Outcome Bytes
read_or_empty (ret v) = ret v
read_or_empty (fail e) = ret []
read_or_empty panic = panic

module _ (B : Bolt) where
  -- The loop of getBuckets, from the bucket reached so far.
  unfoldable pub walk :
      Bool → List Bytes → Option Handle → Bytes → Exec B.State (Option Handle × Bytes)
  walk create [] bkt name = pure (bkt, name)
  walk create (b ∷ bs) none name = λ s. (panic, s)
  walk true (b ∷ bs) (some h) name = do h' ← B.create h b; walk true bs (some h') b
  walk false (b ∷ bs) (some h) name = λ s. elim (B.child s h b) [
    | none ↦ (fail (no_bucket b), s)
    | some h' ↦ walk false bs (some h') b s
  ]

  unfoldable pub get_buckets : List Bytes → Bytes → Bool → Exec B.State (Option Handle × Bytes)
  unfolding walk
  get_buckets buckets prefix create s = walk create buckets (B.child s [] prefix) prefix s

  abbrev pub on_db : Exec B.State (Unit {0}) → Exec (Node B) (Unit {0})
  on_db m n = let (r, s) = m n.db in (r, record n { db = s })

  abbrev pub on_cluster : Exec Cluster (Unit {0}) → Exec (Node B) (Unit {0})
  on_cluster m n = let (r, c) = m n.cluster in (r, record n { cluster = c })

  -- The bodies of the transactions that write.
  unfoldable pub put_in : List Bytes → Bytes → Bytes → Bytes → Exec B.State (Unit {0})
  unfolding get_buckets
  put_in buckets k prefix bobj = do
    (b, _) ← get_buckets buckets prefix true
    h ← lift (deref b)
    B.put h k bobj

  unfoldable pub delete_in : List Bytes → Bytes → Bytes → Exec B.State (Unit {0})
  unfolding get_buckets
  delete_in buckets k prefix = do
    (b, _) ← get_buckets buckets prefix false
    h ← lift (deref b)
    B.delete h k

  unfoldable pub delete_bucket_in : List Bytes → Bytes → Bytes → Exec B.State (Unit {0})
  unfolding get_buckets
  delete_bucket_in buckets k prefix = do
    (b, _) ← get_buckets buckets prefix false
    h ← lift (deref b)
    B.delete_bucket h k

  -- The bodies of those that read.
  unfoldable pub get_in : List Bytes → Bytes → Bytes → B.State → Outcome Bytes
  unfolding get_buckets
  get_in buckets k prefix s = (get_buckets buckets prefix false s).0 >>? λ (b, _).
      deref b >>? λ h. ret (bytes_of (B.get s h k))

  unfoldable pub mark_buckets : B.State → Handle → List Bytes → List Bytes
  mark_buckets s h [] = []
  mark_buckets s h (k ∷ ks) =
      (k ++ elim (B.child s h k) [ none ↦ [] | some _ ↦ codes "/" ]) ∷ mark_buckets s h ks

  -- b, or b.Bucket(k) where a key is given
  abbrev pub key_bucket : B.State → Option Handle → Bytes → Outcome Handle
  key_bucket s b [] = deref b
  key_bucket s b (c ∷ k) = deref b >>? λ h. deref (B.child s h (c ∷ k))

  unfoldable pub keys_in : List Bytes → Bytes → Bytes → B.State → Outcome (List Bytes)
  unfolding get_buckets mark_buckets
  keys_in buckets k prefix s = (get_buckets buckets prefix false s).0 >>? λ (b, _).
      key_bucket s b k >>? λ h. ret (mark_buckets s h (B.keys s h))

module _ (B : Bolt) (J : Json) where
  -- `id` is the UUID of the message.
  unfoldable pub emit_event : Bytes → Bytes → KvObject → Bytes → Exec (Node B) (Unit {0})
  emit_event t key value id = do
    update ← lift (J.updates.marshal (record { update_type = t; key = key; value = value }))
    on_cluster B (emit J.messages (codes "update") update (codes "KVUpdate") id)

  -- PutObject; its argument `secret` is not used.
  unfoldable pub put_object :
      Bytes → KvObject → Bytes → Bool → List Bool → Bytes → Exec (Node B) (Unit {0})
  put_object key value prefix secret e id =
      let (buckets, k) = parse_path key in
      do
        bobj ← lift (J.objects.marshal value)
        on_db B (B.update (put_in B buckets k prefix bobj))
        if emit_flag e then emit_event (codes "put:key") key value id else pure tt

  -- Put, at the time `now`. Either way the stored text is `value`.
  unfoldable pub put :
      Bytes → Bytes → Bytes → Bool → List Bool → Time → Bytes → Exec (Node B) (Unit {0})
  put key value prefix secret e now id =
      put_object key
        (record {
          last_updated = now;
          secret = secret;
          value = value;
          locks = [];
          plaintext = if J.is_json value then false else true;
        })
        prefix secret e id

  unfoldable pub get_object : Bytes → Bytes → Node B → Outcome KvObject
  get_object key prefix n =
      let (buckets, k) = parse_path key in
      read_or_empty (B.view (get_in B buckets k prefix) n.db) >>? J.objects.unmarshal

  unfoldable pub get : Bytes → Bytes → Node B → Outcome Bytes
  get key prefix n = get_object key prefix n >>? λ o. ret o.value

  unfoldable pub get_keys : Bytes → Bytes → Node B → Outcome (List Bytes)
  get_keys key prefix n =
      let (buckets, k) = parse_path key in B.view (keys_in B buckets k prefix) n.db

  -- After the transaction: a broadcast replaces the transaction's error by its own.
  unfoldable pub then_emit :
      Bool → Bytes → Bytes → Bytes → Exec (Node B) (Unit {0}) → Exec (Node B) (Unit {0})
  then_emit emits t key id m n =
      let (r, n') = m n in
      elim r [
        | panic ↦ (panic, n')
        | ret u ↦ if emits then emit_event t key zero_object id n' else (ret u, n')
        | fail e ↦ if emits then emit_event t key zero_object id n' else (fail e, n')
      ]

  unfoldable pub delete_key : Bytes → Bytes → List Bool → Bytes → Exec (Node B) (Unit {0})
  delete_key key prefix e id =
      let (buckets, k) = parse_path key in
      then_emit (emit_flag e) (codes "delete:key") key id
        (on_db B (B.update (delete_in B buckets k prefix)))

  unfoldable pub delete_bucket : Bytes → Bytes → List Bool → Bytes → Exec (Node B) (Unit {0})
  delete_bucket key prefix e id =
      let (buckets, k) = parse_path key in
      then_emit (emit_flag e) (codes "delete:bucket") key id
        (on_db B (B.update (delete_bucket_in B buckets k prefix)))

-- ===== src/Token.antt =====
-- token.go: the store of access tokens and its replication. The prometheus gauges are left out.
pub mod Validity
pub mod Expiry
pub mod Replication
pub mod Rounds
pub mod Deletion
use cave.Base.{
  ℕ, ◌+◌, ◌*◌, ◌^◌, Bool, true, false, ◌&&◌, ◌||◌, Option, none, some, List, [], ◌∷◌, Bytes, codes,
  eqb, leb, ltb, if◌then◌else◌, Dict, lookup, insert, erase, Err, message, Outcome, ret, fail,
  panic,
}
use cave.Types.{Time, Mode, dev, prod, Message, Codec}
use cave.Cluster.{Cluster, emit}

pub record Token : Type 0 where
  pub issue_time : Time
  pub expire_time : Time
  pub uid : Bytes
  pub token : Bytes
  pub issued_by : Bytes
  pub typ : Bytes

-- The store with its mutex, the id of the node and the cluster that updates are broadcast to.
pub record TokenStore : Type 0 where
  -- `none` is the nil map
  pub store : Option (Dict Token)
  pub locked : Bool
  pub id : Bytes
  pub cluster : Cluster

-- The entries of a map: nil has none, and reading it or deleting from it does no harm.
abbrev pub entries : Option (Dict Token) → Dict Token
entries none = []
entries (some d) = d

-- delete(m, tid)
abbrev pub erase_entry : Bytes → Option (Dict Token) → Option (Dict Token)
erase_entry tid none = none
erase_entry tid (some d) = some (erase tid d)

-- NewTokenStore, with make(map[string]Token)
abbrev pub new_store : Bytes → Cluster → TokenStore
new_store id c = record { store = some []; locked = false; id = id; cluster = c }

-- A call that may wait for the mutex for ever, which is `none`.
abbrev pub Sync : Type 0 → Type 0
Sync A = TokenStore → Option (Outcome A × TokenStore)

abbrev pub no_token : Err
no_token = message (codes "Token does not exist")

abbrev pub no_user : Err
no_user = message (codes "User does not have any issued tokens")

-- 60 * time.Minute and 87600 * time.Hour
abbrev pub hour_term : ℕ
hour_term = 60 * 60 * 10 ^ 9

abbrev pub decade_term : ℕ
decade_term = 87600 * 60 * 60 * 10 ^ 9

-- t.lock.Lock(); t.store = f(t.store); t.lock.Unlock()
unfoldable pub under_lock : (Option (Dict Token) → Option (Dict Token)) → Sync (Unit {0})
under_lock f t = if t.locked then none else some (ret tt, record t { store = f t.store })

-- t.store[tid] = tok with the mutex held, which panics at nil and then is not released
abbrev pub write_entry : Bytes → Token → Option (Dict Token) → Sync (Unit {0})
write_entry tid tok none t = some (panic, record t { locked = true })
write_entry tid tok (some d) t = some (ret tt, record t { store = some (insert tid tok d) })

-- t.lock.Lock(); t.store[tid] = tok; t.lock.Unlock()
unfoldable pub put_token : Bytes → Token → Sync (Unit {0})
put_token tid tok t = if t.locked then none else write_entry tid tok t.store t

abbrev pub resume :
    {A B : Type 0}
    → Option (Outcome A × TokenStore)
    → (A → Sync B)
    → Option (Outcome B × TokenStore)
resume none f = none
resume (some (ret a, t)) f = f a t
resume (some (fail e, t)) f = some (fail e, t)
resume (some (panic, t)) f = some (panic, t)

abbrev pub and_then : {A B : Type 0} → Sync A → (A → Sync B) → Sync B
and_then m f t = resume (m t) f

unfoldable pub find : Bytes → TokenStore → Outcome Token
find tid t = elim (lookup tid (entries t.store)) [ none ↦ fail no_token | some v ↦ ret v ]

-- Validate; the clock is read twice.
unfoldable pub validate : Bytes → Bytes → Bytes → Time → Time → TokenStore → Bool
validate typ uid tid now now' t = elim (find tid t) [
  | ret token ↦
      leb token.issue_time now
      && ltb now' token.expire_time
      && eqb uid token.uid
      && eqb typ token.typ
  | fail e ↦ false
  | panic ↦ false
]

-- The first token of the user, in the order in which `range` yields the entries.
unfoldable pub find_user_in : Bytes → Dict Token → Outcome Token
find_user_in uid [] = fail no_user
find_user_in uid ((k, v) ∷ m) = if eqb v.uid uid then ret v else find_user_in uid m

-- FindUser; Go leaves the order of `range` open, so it is a parameter.
unfoldable pub find_user : (Dict Token → Dict Token) → Bytes → TokenStore → Outcome Token
unfolding find_user_in
find_user range uid t = find_user_in uid (range (entries t.store))

-- What Issue takes from outside: the UUIDs of the token and of the message, and the two readings
-- of the clock, the first for the expiry.
pub record IssueInput : Type 0 where
  pub token : Bytes
  pub message_id : Bytes
  pub now : Time
  pub issued : Time

abbrev pub expiry : List Bool → Time → Time
expiry (false ∷ _) now = now + decade_term
expiry _ now = now + hour_term

unfoldable pub new_token : Bytes → Bytes → List Bool → IssueInput → Bytes → Token
new_token user typ expire i issuer = record {
  issue_time = i.issued;
  expire_time = expiry expire i.now;
  uid = user;
  token = i.token;
  issued_by = issuer;
  typ = typ;
}

-- The test of the cleanup cycle, with the two readings of the clock.
abbrev pub is_stale : Time → Time → Token → Bool
is_stale now now' v = leb now v.issue_time || ltb v.expire_time now'

-- The keys that the cycle collects; `clock` and `clock'` are read anew for each entry.
unfoldable pub stale_keys : (Bytes → Time) → (Bytes → Time) → Dict Token → List Bytes
stale_keys clock clock' [] = []
stale_keys clock clock' ((k, v) ∷ m) =
    let rest = stale_keys clock clock' m in
    if is_stale (clock k) (clock' k) v then k ∷ rest else rest

-- `tokens` is json at map[string]Token: null is the text of nil and decodes to it.
module _ (tokens : Codec (Option (Dict Token))) (messages : Codec Message) where
  -- With the mutex held: an error of json.Marshal returns without releasing it.
  emit_locked : Outcome Bytes → Bytes → Sync (Unit {0})
  emit_locked (ret b) id t =
      let (r, c) = emit messages (codes "token") b (codes "token:update") id t.cluster in
      some (r, record t { cluster = c })
  emit_locked (fail e) id t = some (fail e, record t { locked = true })
  emit_locked panic id t = some (panic, record t { locked = true })

  emit_in_mode : Mode → Bytes → Sync (Unit {0})
  emit_in_mode dev id t = some (ret tt, t)
  emit_in_mode prod id t = if t.locked then none else emit_locked (tokens.marshal t.store) id t

  -- emit; `id` is the UUID of the message
  unfoldable pub emit_store : Bytes → Sync (Unit {0})
  unfolding emit_in_mode emit_locked
  emit_store id t = emit_in_mode t.cluster.mode id t

  -- HandleUpdate: the whole store is replaced by the map in the message, nil included.
  unfoldable pub handle_update : Message → Sync (Unit {0})
  handle_update m t = elim (tokens.unmarshal m.payload) [
    | ret d ↦ under_lock (λ _. d) t
    | fail e ↦ some (fail e, t)
    | panic ↦ some (panic, t)
  ]

  -- Delete: only the branch that finds no token broadcasts.
  unfoldable pub delete : Bytes → Bytes → Sync (Unit {0})
  delete tid id t = elim (lookup tid (entries t.store)) [
    | some v ↦ under_lock (erase_entry tid) t
    | none ↦ and_then (emit_store id) (λ _ t'. some (fail no_token, t')) t
  ]

  unfoldable pub issue : Bytes → Bytes → List Bool → IssueInput → Sync Token
  unfolding put_token
  issue user typ expire i t =
      let tok = new_token user typ expire i t.id in
      and_then (put_token i.token tok)
        (λ _. and_then (emit_store i.message_id) (λ _ t'. some (ret tok, t'))) t

  -- An error of Delete is only logged.
  unfoldable pub delete_all : List Bytes → Bytes → TokenStore → Option TokenStore
  delete_all [] id t = some t
  delete_all (k ∷ ks) id t = elim (delete k id t) [
    | none ↦ none
    | some (r, t') ↦ delete_all ks id t'
  ]

  -- The cleanup that Start runs on every hundredth idle round.
  unfoldable pub cleanup : (Bytes → Time) → (Bytes → Time) → Bytes → TokenStore → Option TokenStore
  cleanup clock clock' id t = delete_all (stale_keys clock clock' (entries t.store)) id t

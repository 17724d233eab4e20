-- ===== src/Tests/Token.antt =====
-- The theorems on token.go at concrete inputs.
use cave.Base.{
  ◌≡◌, ◌↔◌, refl, true, false, Option, none, some, [], ◌∷◌, codes, eqb, Dict, lookup, insert, erase,
  NodupKeys, message, ret, fail, panic, ◌≤◌, ◌<◌,
}
use cave.Types.{prod, Message, Codec}
use cave.Cluster.{emit}
use cave.Token.{
  Token, TokenStore, under_lock, put_token, validate, IssueInput, expiry, new_token, issue, delete,
  delete_all, cleanup, stale_keys, emit_store, handle_update,
}
use cave.Token.Validity.{validate-issue_iff}
use cave.Token.Replication.{validate-handle_update, issue-after_failure, issue-handle_update_nil}
use cave.Token.Deletion.{validate-delete_heard}
use cave.Tests.Nodes.{reads_back, cluster_of, json}

abbrev old : Token
old = record {
  issue_time = 1;
  expire_time = 50;
  uid = codes "u";
  token = codes "t";
  issued_by = [];
  typ = codes "api";
}

abbrev young : Token
young = record {
  issue_time = 2;
  expire_time = 90;
  uid = codes "u";
  token = codes "s";
  issued_by = [];
  typ = codes "api";
}

abbrev pub listing : Dict Token
listing = (codes "t", old) ∷ (codes "s", young) ∷ []

abbrev pub both : TokenStore
both = record { store = some listing; locked = false; id = codes "n"; cluster = cluster_of prod }

abbrev idle : TokenStore
idle = record { store = some []; locked = false; id = codes "m"; cluster = cluster_of prod }

abbrev pub tokens : Codec (Option (Dict Token))
tokens = record { marshal = λ d. ret (3 ∷ []); unmarshal = λ b. ret both.store }

abbrev broken : Codec (Option (Dict Token))
broken = record { marshal = λ d. fail (message []); unmarshal = λ b. fail (message []) }

abbrev pub input : IssueInput
input = record { token = 0 ∷ []; message_id = 1 ∷ []; now = 60; issued = 61 }

abbrev issued : TokenStore
issued = record both {
  store = some (insert (0 ∷ []) (new_token (codes "u") (codes "api") [] input (codes "n")) listing);
  cluster =
      (emit json.messages (codes "token") (3 ∷ []) (codes "token:update") (1 ∷ []) both.cluster).1;
}

issue_done :
    issue tokens json.messages (codes "u") (codes "api") [] input both
    ≡ some (ret (new_token (codes "u") (codes "api") [] input (codes "n")), issued)
unfolding issue put_token emit_store emit
issue_done = refl

validate-issue_iff_example :
    (validate (codes "api") (codes "u") (0 ∷ []) 70 71 issued ≡ true)
    ↔ ((61 ≤ 70) × (71 < expiry [] 60) × (codes "u" ≡ codes "u") × (codes "api" ≡ codes "api"))
validate-issue_iff_example =
    validate-issue_iff tokens json.messages (codes "u") (codes "api") [] input both (codes "api")
      (codes "u") 70 71 issue_done

delete_done :
    delete tokens json.messages (codes "t") (1 ∷ []) both
    ≡ some (ret tt, record both { store = some (erase (codes "t") listing) })
unfolding delete under_lock lookup eqb
delete_done = refl

cleaned :
    cleanup tokens json.messages (λ k. 60) (λ k. 60) (1 ∷ []) both
    ≡ some (record both { store = some (erase (codes "t") listing) })
unfolding cleanup stale_keys delete_all delete under_lock lookup eqb
cleaned = refl

pub distinct : NodupKeys listing
unfolding lookup eqb
distinct = (refl, (refl, tt))

abbrev told : TokenStore
told = record both {
  cluster =
      (emit json.messages (codes "token") (3 ∷ []) (codes "token:update") (1 ∷ []) both.cluster).1;
}

emit_done : emit_store tokens json.messages (1 ∷ []) both ≡ some (ret tt, told)
unfolding emit_store emit
emit_done = refl

abbrev pub update : Message
update = record {
  epoch = 4;
  id = [];
  typ = codes "token";
  origin = [];
  payload = 3 ∷ [];
  data_type = codes "token:update";
}

update_done :
    handle_update tokens json.messages update idle
    ≡ some (ret tt, record idle { store = both.store })
unfolding handle_update under_lock
update_done = refl

validate-handle_update_example :
    validate (codes "api") (codes "u") (codes "t") 7 8 (record idle { store = both.store })
    ≡ validate (codes "api") (codes "u") (codes "t") 7 8 both
validate-handle_update_example =
    validate-handle_update tokens json.messages both update idle (codes "api") (codes "u")
      (codes "t") 7 8 refl (reads_back tokens both.store (3 ∷ []) refl refl) update_done

broken_done :
    emit_store broken json.messages (1 ∷ []) both
    ≡ some (fail (message []), record both { locked = true })
unfolding emit_store
broken_done = refl

issue-after_failure_example :
    issue broken json.messages (codes "u") (codes "api") [] input (record both { locked = true })
    ≡ none
issue-after_failure_example =
    issue-after_failure broken json.messages (1 ∷ []) both (codes "u") (codes "api") [] input refl
      refl broken_done

-- json at null
abbrev nulls : Codec (Option (Dict Token))
nulls = record { marshal = λ d. ret (codes "null"); unmarshal = λ b. ret none }

null_done :
    handle_update nulls json.messages update both ≡ some (ret tt, record both { store = none })
unfolding handle_update under_lock
null_done = refl

issue-handle_update_nil_example :
    (s : TokenStore) × (issue nulls json.messages
        (codes "u")
        (codes "api")
        []
        input
        (record both { store = none })
      ≡ some (panic, s))
    × (issue nulls json.messages (codes "v") (codes "api") [] input s ≡ none)
issue-handle_update_nil_example =
    issue-handle_update_nil nulls json.messages update both (codes "u") (codes "api") (codes "v")
      (codes "api") [] [] input input refl refl null_done

abbrev later : Option (Dict Token)
later = some (
    insert (0 ∷ []) (new_token (codes "u") (codes "api") [] input (codes "n"))
      (erase (codes "t") listing))

abbrev later_tokens : Codec (Option (Dict Token))
later_tokens = record { marshal = λ d. ret (3 ∷ []); unmarshal = λ b. ret later }

abbrev deleted : TokenStore
deleted = record both { store = some (erase (codes "t") listing) }

delete_later : delete later_tokens json.messages (codes "t") (1 ∷ []) both ≡ some (ret tt, deleted)
unfolding delete under_lock lookup eqb
delete_later = refl

abbrev issued_later : TokenStore
issued_later = record both {
  store = later;
  cluster =
      (emit json.messages (codes "token") (3 ∷ []) (codes "token:update") (1 ∷ []) both.cluster).1;
}

issue_later :
    issue later_tokens json.messages (codes "u") (codes "api") [] input deleted
    ≡ some (ret (new_token (codes "u") (codes "api") [] input (codes "n")), issued_later)
unfolding issue put_token emit_store emit
issue_later = refl

hear_later :
    handle_update later_tokens json.messages update both
    ≡ some (ret tt, record both { store = later })
unfolding handle_update under_lock
hear_later = refl

found : lookup (codes "t") listing ≡ some old
unfolding lookup eqb
found = refl

validate-delete_heard_example :
    (both.cluster ≡ both.cluster)
    × (validate (codes "api") (codes "u") (codes "t") 7 8 (record both { store = later }) ≡ false)
validate-delete_heard_example =
    validate-delete_heard later_tokens json.messages (codes "t") (1 ∷ []) both (codes "u")
      (codes "api") [] input update both (codes "api") (codes "u") 7 8 found delete_later (λ e. cc)
      issue_later refl (reads_back later_tokens later (3 ∷ []) refl refl) hear_later

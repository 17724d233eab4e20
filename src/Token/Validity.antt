-- ===== src/Token/Validity.antt =====
-- When Validate accepts a token, and the tokens that Issue makes.
use cave.Base.{
  refl, if◌then◌else◌, ◌≤◌, ◌<◌, ◌≡◌, ◌≢◌, ◌↔◌, sym, ap, subst, ◌∙◌, inl, inr, Bool, true, false,
  ◌&&◌, Option, none, some, List, Bytes, arith, eqb, eqb_iff, eqb_refl, leb, ltb, Dict, lookup,
  insert, lookup-insert, Outcome, ret, fail, panic, Outcome-cases, Option-cases, Bool-cases,
}
use cave.Types.{Time, Mode, dev, prod, Message, Codec}
use cave.Token.{
  Token, TokenStore, entries, no_token, under_lock, emit_store, emit_in_mode, emit_locked, find,
  validate, Sync, resume, put_token, write_entry, IssueInput, expiry, new_token, issue,
}

pub some-inj : {A : Type 0} {a b : A} → some a ≡ some b → a ≡ b
some-inj e = cc

done-inj :
    {A S : Type 0} {a b : A} {s t : S}
    → ◌≡◌ {A = Option (Outcome A × S)} (some (ret a, s)) (some (ret b, t))
    → (a ≡ b) × (s ≡ t)
done-inj e = (cc, cc)

pub state-inj :
    {A S : Type 0} {a b : A} {s t : S}
    → ◌≡◌ {A = Option (A × S)} (some (a, s)) (some (b, t))
    → s ≡ t
state-inj e = cc

pub outcome-inj :
    {A S : Type 0} {a b : A} {s t : S}
    → ◌≡◌ {A = Option (A × S)} (some (a, s)) (some (b, t))
    → a ≡ b
outcome-inj e = cc

-- A call that goes on after another and succeeds.
pub resume-ret :
    {A B : Type 0} (x : Option (Outcome A × TokenStore)) (f : A → Sync B) {b : B} {t' : TokenStore}
    → resume x f ≡ some (ret b, t')
    → (a : A) × (s : TokenStore) × (x ≡ some (ret a, s)) × (f a s ≡ some (ret b, t'))
resume-ret none f h = absurd (cc)
resume-ret (some (ret a, s)) f h = (a, s, refl, h)
resume-ret (some (fail e, s)) f h = absurd (cc)
resume-ret (some (panic, s)) f h = absurd (cc)

-- What Validate asks of a token.
pub record IsGood (typ uid : Bytes) (now now' : Time) (v : Token) : Type 0 where
  pub issued : v.issue_time ≤ now
  pub alive : now' < v.expire_time
  pub of_user : v.uid ≡ uid
  pub of_type : v.typ ≡ typ

find-some :
    (tid : Bytes) (t : TokenStore) {v : Token}
    → lookup tid (entries t.store) ≡ some v
    → find tid t ≡ ret v
unfolding find
find-some tid t e = rw (e, find)

find-none :
    (tid : Bytes) (t : TokenStore)
    → lookup tid (entries t.store) ≡ none
    → find tid t ≡ fail no_token
unfolding find
find-none tid t e = rw (e, find)

pub accepts : Bytes → Bytes → Time → Time → Token → Bool
accepts typ uid now now' v =
    leb v.issue_time now && ltb now' v.expire_time && eqb uid v.uid && eqb typ v.typ

accepts→good :
    (typ uid : Bytes) (now now' : Time) (v : Token)
    → accepts typ uid now now' v ≡ true
    → IsGood typ uid now now' v
unfolding accepts
accepts→good typ uid now now' v h = ground (arith, eqb_iff uid v.uid, eqb_iff typ v.typ)

good→accepts :
    (typ uid : Bytes) (now now' : Time) (v : Token)
    → IsGood typ uid now now' v
    → accepts typ uid now now' v ≡ true
unfolding accepts
good→accepts typ uid now now' v g = ground (arith, eqb_iff uid v.uid, eqb_iff typ v.typ)

pub validate-some :
    (typ uid tid : Bytes) (now now' : Time) (t : TokenStore) {v : Token}
    → lookup tid (entries t.store) ≡ some v
    → validate typ uid tid now now' t ≡ accepts typ uid now now' v
unfolding validate accepts
validate-some typ uid tid now now' t e = rw (find-some tid t e, validate)

pub validate-none :
    (typ uid tid : Bytes) (now now' : Time) (t : TokenStore)
    → lookup tid (entries t.store) ≡ none
    → validate typ uid tid now now' t ≡ false
unfolding validate
validate-none typ uid tid now now' t e = rw (find-none tid t e, validate)

-- Validate reads nothing but the entry of its token.
pub validate-lookup :
    (typ uid tid : Bytes) (now now' : Time) (s t : TokenStore)
    → lookup tid (entries s.store) ≡ lookup tid (entries t.store)
    → validate typ uid tid now now' s ≡ validate typ uid tid now now' t
validate-lookup typ uid tid now now' s t same = elim (Option-cases (lookup tid (entries t.store))) [
  | inl e ↦
      validate-none typ uid tid now now' s (same ∙ e) ∙ sym (validate-none typ uid tid now now' t e)
  | inr (v, e) ↦
      validate-some typ uid tid now now' s (same ∙ e) ∙ sym (validate-some typ uid tid now now' t e)
]

-- Validate accepts exactly the tokens that are in the store, issued by the first reading of the
-- clock, not expired at the second, and of that user and type.
pub validate_iff :
    (typ uid tid : Bytes) (now now' : Time) (t : TokenStore)
    → (validate typ uid tid now now' t ≡ true)
      ↔ ((v : Token) × (lookup tid (entries t.store) ≡ some v) × IsGood typ uid now now' v)
validate_iff typ uid tid now now' t = elim (Option-cases (lookup tid (entries t.store))) [
  | inl e ↦ ((λ h. cc (validate-none typ uid tid now now' t e)), λ (v, f, g). cc)
  | inr (w, e) ↦
      let k = validate-some typ uid tid now now' t e in
      (
        (λ h. (w, e, accepts→good typ uid now now' w (rw k at h))),
        λ (v, f, g). rw k (
            good→accepts typ uid now now' w
              (subst (IsGood typ uid now now') (some-inj (sym f ∙ e)) g)),
      )
]

pub under_lock-free :
    (f : Option (Dict Token) → Option (Dict Token)) (t : TokenStore)
    → t.locked ≡ false
    → under_lock f t ≡ some (ret tt, record t { store = f t.store })
unfolding under_lock
under_lock-free f t e = ground arith

pub under_lock-held :
    (f : Option (Dict Token) → Option (Dict Token)) (t : TokenStore)
    → t.locked ≡ true
    → under_lock f t ≡ none
unfolding under_lock
under_lock-held f t e = ground arith

write_entry-ret :
    (tid : Bytes) (tok : Token) (m : Option (Dict Token)) (t : TokenStore) {u : Unit {0}}
    {s : TokenStore}
    → write_entry tid tok m t ≡ some (ret u, s)
    → (d : Dict Token) × (m ≡ some d) × (s ≡ record t { store = some (insert tid tok d) })
write_entry-ret tid tok none t h = absurd (cc)
write_entry-ret tid tok (some d) t h = (d, refl, sym (state-inj h))

pub put_token-free :
    (tid : Bytes) (tok : Token) (t : TokenStore)
    → t.locked ≡ false
    → put_token tid tok t ≡ write_entry tid tok t.store t
unfolding put_token
put_token-free tid tok t e = ap (λ b. if b then none else write_entry tid tok t.store t) e

pub put_token-held :
    (tid : Bytes) (tok : Token) (t : TokenStore) → t.locked ≡ true → put_token tid tok t ≡ none
unfolding put_token
put_token-held tid tok t e = ap (λ b. if b then none else write_entry tid tok t.store t) e

-- Writing an entry that succeeds has put it into a map.
put_token-ret :
    (tid : Bytes) (tok : Token) (t : TokenStore) {u : Unit {0}} {s : TokenStore}
    → put_token tid tok t ≡ some (ret u, s)
    → (d : Dict Token) × (t.store ≡ some d) × (s ≡ record t { store = some (insert tid tok d) })
put_token-ret tid tok t {u} {s} h = elim (Bool-cases t.locked) [
  | inl held ↦ absurd (cc (put_token-held tid tok t held, h))
  | inr free ↦
      write_entry-ret tid tok t.store t {u = u} {s = s} (sym (put_token-free tid tok t free) ∙ h)
]

module _ (tokens : Codec (Option (Dict Token))) (messages : Codec Message) where
  emit_in_mode-store :
      (m : Mode) (id : Bytes) (t : TokenStore) {r : Outcome (Unit {0})} {t' : TokenStore}
      → emit_in_mode tokens messages m id t ≡ some (r, t')
      → t'.store ≡ t.store
  unfolding emit_in_mode emit_locked
  emit_in_mode-store dev id t h = ground arith
  emit_in_mode-store prod id t h = elim (Outcome-cases (tokens.marshal t.store)) [
    | inl (b, m) ↦ ground arith
    | inr (inl (x, m)) ↦ ground arith
    | inr (inr m) ↦ ground arith
  ]

  -- A broadcast leaves the tokens as they are.
  pub emit_store-store :
      (id : Bytes) (t : TokenStore) {r : Outcome (Unit {0})} {t' : TokenStore}
      → emit_store tokens messages id t ≡ some (r, t')
      → t'.store ≡ t.store
  unfolding emit_store
  emit_store-store id t {r} {t'} h = emit_in_mode-store t.cluster.mode id t {r = r} {t' = t'} h

  -- An Issue that succeeds has put its token into the store and changed no other.
  pub issue_lem :
      (user typ : Bytes) (expire : List Bool) (i : IssueInput) (t : TokenStore) {tok : Token}
      {t' : TokenStore}
      → issue tokens messages user typ expire i t ≡ some (ret tok, t')
      → (tok ≡ new_token user typ expire i t.id)
        × (entries t'.store ≡ insert i.token tok (entries t.store))
  unfolding issue
  issue_lem user typ expire i t {tok} {t'} h =
      let new = new_token user typ expire i t.id in
      let (u, mid, put, h₁) = resume-ret (put_token i.token new t) _ h in
      let (d, there, written) = put_token-ret i.token new t {u = u} {s = mid} put in
      let (u', t'', e, h₂) = resume-ret (emit_store tokens messages i.message_id mid) _ h₁ in
      let kept = emit_store-store i.message_id mid {r = ret u'} {t' = t''} e in
      let (same, moved) = done-inj h₂ in
      (
        sym same,
        ap (λ (x : TokenStore). entries x.store) (sym moved)
            ∙ ap entries (kept ∙ ap (λ (x : TokenStore). x.store) written)
            ∙ ap (λ x. insert i.token x d) same
            ∙ ap (λ m. insert i.token tok (entries m)) (sym there),
      )

  -- After a successful Issue, Validate accepts the new token exactly for its user and type, from
  -- its issue on and until it expires.
  pub validate-issue_iff :
      (user typ : Bytes) (expire : List Bool) (i : IssueInput) (t : TokenStore) {tok : Token}
      {t' : TokenStore} (typ' uid : Bytes) (now now' : Time)
      → issue tokens messages user typ expire i t ≡ some (ret tok, t')
      → (validate typ' uid i.token now now' t' ≡ true)
        ↔ ((i.issued ≤ now) × (now' < expiry expire i.now) × (user ≡ uid) × (typ ≡ typ'))
  validate-issue_iff user typ expire i t {tok} {t'} typ' uid now now' h =
      let (made, stored) = issue_lem user typ expire i t h in
      let there : lookup i.token (entries t'.store) ≡ some (new_token user typ expire i t.id) =
        rw stored (rw (lookup-insert, eqb_refl, made)) in
      let k = validate-some typ' uid i.token now now' t' there in
      (
        (λ a.
            unfold new_token in
            let g = accepts→good typ' uid now now' (new_token user typ expire i t.id) (rw k at a) in
            (g.issued, g.alive, g.of_user, g.of_type)),
        λ (a, b, c, d). rw k (
            good→accepts typ' uid now now' (new_token user typ expire i t.id)
              (unfold new_token in record { issued = a; alive = b; of_user = c; of_type = d })),
      )

  -- An Issue that succeeds changes Validate's answer for no other token id.
  pub validate-issue_ne :
      (user typ : Bytes) (expire : List Bool) (i : IssueInput) (t : TokenStore) {tok : Token}
      {t' : TokenStore} (typ' uid tid : Bytes) (now now' : Time)
      → issue tokens messages user typ expire i t ≡ some (ret tok, t')
      → i.token ≢ tid
      → validate typ' uid tid now now' t' ≡ validate typ' uid tid now now' t
  validate-issue_ne user typ expire i t {tok} {t'} typ' uid tid now now' h ne =
      let (made, stored) = issue_lem user typ expire i t h in
      let same : lookup tid (entries t'.store) ≡ lookup tid (entries t.store) =
        rw (stored, lookup-insert) (ground (arith, eqb_iff i.token tid)) in
      validate-lookup typ' uid tid now now' t' t same

-- ===== src/Token/Replication.antt =====
-- Tokens on other nodes.
use cave.Base.{
  Option, ◌≡◌, refl, sym, ap, subst, ◌∙◌, inl, inr, Bool, true, false, none, some, Bytes, arith,
  codes, Dict, lookup, Outcome, ret, fail, panic, Bool-cases, Outcome-cases, Err, List,
}
use cave.Types.{Time, prod, Message, Codec, ReadsBack}
use cave.Cluster.Emit.{Sent, emit_lem}
use cave.Token.{
  put_token, write_entry, Token, TokenStore, entries, under_lock, emit_store, emit_in_mode,
  emit_locked, handle_update, validate, issue, IssueInput, new_token,
}
use cave.Token.Validity.{
  put_token-held, put_token-free, under_lock-free, under_lock-held, state-inj, outcome-inj,
  validate-lookup,
}

module _ (tokens : Codec (Option (Dict Token))) (messages : Codec Message) where
  emit_locked-Sent :
      (id : Bytes) (t : TokenStore) {u : Unit {0}} {t' : TokenStore} {b : Bytes}
      → t.cluster.mode ≡ prod
      → emit_locked tokens messages (ret b) id t ≡ some (ret u, t')
      → Sent messages (codes "token") b (codes "token:update") id t.cluster t'.cluster
  unfolding emit_locked
  emit_locked-Sent id t {u} {t'} {b} p h =
      let moved = ap (λ (s : TokenStore). s.cluster) (state-inj h) in
      let ok = outcome-inj h in
      elim (emit_lem messages (codes "token") b (codes "token:update") id t.cluster) [
        | inr (k, s) ↦
            subst (Sent messages (codes "token") b (codes "token:update") id t.cluster) moved s
        | inl (same, inl d) ↦ absurd (cc)
        | inl (same, inr bad) ↦ absurd (bad ok)
      ]

  emit_locked-fail :
      (id : Bytes) (t : TokenStore) (x : Err)
      → emit_locked tokens messages (fail x) id t ≡ some (fail x, record t { locked = true })
  unfolding emit_locked
  emit_locked-fail id t x = refl

  emit_locked-panic :
      (id : Bytes) (t : TokenStore)
      → emit_locked tokens messages panic id t ≡ some (panic, record t { locked = true })
  unfolding emit_locked
  emit_locked-panic id t = refl

  emit_in_mode-held :
      (id : Bytes) (t : TokenStore)
      → t.locked ≡ true
      → emit_in_mode tokens messages prod id t ≡ none
  unfolding emit_in_mode
  emit_in_mode-held id t e = ground arith

  emit_in_mode-free :
      (id : Bytes) (t : TokenStore)
      → t.locked ≡ false
      → emit_in_mode tokens messages prod id t
        ≡ emit_locked tokens messages (tokens.marshal t.store) id t
  unfolding emit_in_mode
  emit_in_mode-free id t e = rw e

  emit_store-prod :
      (id : Bytes) (t : TokenStore)
      → t.cluster.mode ≡ prod
      → emit_store tokens messages id t ≡ emit_in_mode tokens messages prod id t
  unfolding emit_store
  emit_store-prod id t e = ap (λ m. emit_in_mode tokens messages m id t) e

  -- A broadcast of the tokens that succeeds in a cluster has sent the encoded store to every peer, in
  -- a message that the receiving nodes handle as a token update.
  pub emit_store-Sent :
      (id : Bytes) (t : TokenStore) {u : Unit {0}} {t' : TokenStore}
      → t.cluster.mode ≡ prod
      → emit_store tokens messages id t ≡ some (ret u, t')
      → (b : Bytes) × (tokens.marshal t.store ≡ ret b)
        × Sent messages (codes "token") b (codes "token:update") id t.cluster t'.cluster
  emit_store-Sent id t {u} {t'} p h =
      let h' : emit_in_mode tokens messages prod id t ≡ some (ret u, t') =
        sym (emit_store-prod id t p) ∙ h in
      elim (Bool-cases t.locked) [
        | inl held ↦ absurd (cc (emit_in_mode-held id t held, h'))
        | inr free ↦
            let k = sym (emit_in_mode-free id t free) ∙ h' in
            elim (Outcome-cases (tokens.marshal t.store)) [
              | inl (b, m) ↦ (b, m, emit_locked-Sent id t {u = u} {t' = t'} {b = b} p (rw m at k))
              | inr (inl (x, m)) ↦ absurd (cc (emit_locked-fail id t x, rw m at k))
              | inr (inr m) ↦ absurd (cc (emit_locked-panic id t, rw m at k))
            ]
      ]

  -- A node that has handled a message with the encoded tokens of another node, if these survive their
  -- encoding, answers Validate as that node does at the same times.
  pub validate-handle_update :
      (other : TokenStore) (m : Message) (t : TokenStore) {u : Unit {0}} {t' : TokenStore}
      (typ uid tid : Bytes) (now now' : Time)
      → tokens.marshal other.store ≡ ret m.payload
      → ReadsBack tokens other.store
      → handle_update tokens messages m t ≡ some (ret u, t')
      → validate typ uid tid now now' t' ≡ validate typ uid tid now now' other
  unfolding handle_update
  validate-handle_update other m t {u} {t'} typ uid tid now now' e back h =
      let read : tokens.unmarshal m.payload ≡ ret other.store = back m.payload e in
      let h' : under_lock (λ _. other.store) t ≡ some (ret u, t') = rw (read, handle_update) at h in
      elim (Bool-cases t.locked) [
        | inl held ↦ absurd (cc (under_lock-held (λ _. other.store) t held, h'))
        | inr free ↦
            let same = state-inj (sym (under_lock-free (λ _. other.store) t free) ∙ h') in
            validate-lookup typ uid tid now now' t' other
              (ap (λ (s : TokenStore). lookup tid (entries s.store)) (sym same))
      ]

  failure-held :
      (id : Bytes) (t : TokenStore) {x : Err} {r : Outcome (Unit {0})} {t' : TokenStore}
      → t.cluster.mode ≡ prod
      → tokens.marshal t.store ≡ fail x
      → emit_store tokens messages id t ≡ some (r, t')
      → t'.locked ≡ true
  failure-held id t {x} {r} {t'} p m h =
      let h' : emit_in_mode tokens messages prod id t ≡ some (r, t') =
        sym (emit_store-prod id t p) ∙ h in
      elim (Bool-cases t.locked) [
        | inl held ↦ absurd (cc (emit_in_mode-held id t held, h'))
        | inr free ↦
            let k : emit_locked tokens messages (fail x) id t ≡ some (r, t') =
              ap (λ o. emit_locked tokens messages o id t) (sym m)
              ∙ sym (emit_in_mode-free id t free)
              ∙ h' in
            sym (ap (λ (s : TokenStore). s.locked) (state-inj (sym (emit_locked-fail id t x) ∙ k)))
      ]

  issue-held :
      (user typ : Bytes) (expire : List Bool) (i : IssueInput) (t : TokenStore)
      → t.locked ≡ true
      → issue tokens messages user typ expire i t ≡ none
  unfolding issue
  issue-held user typ expire i t held =
      rw (put_token-held i.token (new_token user typ expire i t.id) t held)

  -- Once json.Marshal has failed in a broadcast in a cluster, the next Issue waits for ever: the
  -- mutex was not released.
  pub issue-after_failure :
      (id : Bytes) (t : TokenStore) {x : Err} {r : Outcome (Unit {0})} {t' : TokenStore}
      (user typ : Bytes) (expire : List Bool) (i : IssueInput)
      → t.cluster.mode ≡ prod
      → tokens.marshal t.store ≡ fail x
      → emit_store tokens messages id t ≡ some (r, t')
      → issue tokens messages user typ expire i t' ≡ none
  issue-after_failure id t {x} {r} {t'} user typ expire i p m h =
      issue-held user typ expire i t' (failure-held id t p m h)

  issue-nil :
      (user typ : Bytes) (expire : List Bool) (i : IssueInput) (t : TokenStore)
      → t.store ≡ none
      → t.locked ≡ false
      → issue tokens messages user typ expire i t ≡ some (panic, record t { locked = true })
  unfolding issue
  issue-nil user typ expire i t e free =
      let tok = new_token user typ expire i t.id in
      let put : put_token i.token tok t ≡ some (panic, record t { locked = true }) =
        put_token-free i.token tok t free ∙ ap (λ m. write_entry i.token tok m t) e in
      rw put

  -- Once a node whose mutex is free has handled a token message that decodes to the nil map, as null
  -- does, Issue panics, and every later Issue waits for ever: the mutex was not released.
  pub issue-handle_update_nil :
      (m : Message) (t : TokenStore) {r : Outcome (Unit {0})} {t' : TokenStore}
      (user typ user' typ' : Bytes) (expire expire' : List Bool) (i i' : IssueInput)
      → tokens.unmarshal m.payload ≡ ret none
      → t.locked ≡ false
      → handle_update tokens messages m t ≡ some (r, t')
      → (s : TokenStore) × (issue tokens messages user typ expire i t' ≡ some (panic, s))
        × (issue tokens messages user' typ' expire' i' s ≡ none)
  unfolding handle_update
  issue-handle_update_nil m t {r} {t'} user typ user' typ' expire expire' i i' e free h =
      let h' : under_lock (λ _. none) t ≡ some (r, t') = rw (e, handle_update) at h in
      let same = state-inj (sym (under_lock-free (λ _. none) t free) ∙ h') in
      (
        record t' { locked = true },
        issue-nil user typ expire i t' (sym (ap (λ (x : TokenStore). x.store) same))
            (subst (λ (x : TokenStore). x.locked ≡ false) same free),
        issue-held user' typ' expire' i' (record t' { locked = true }) refl,
      )

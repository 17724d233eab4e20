-- ===== src/Token/Deletion.antt =====
-- token.go Delete: what becomes of a deletion on the other nodes.
use cave.Base.{
  Option, ◌≡◌, ◌≢◌, sym, ap, ◌∙◌, inl, inr, false, some, List, Bool, Bytes, eqb_refl, Dict, lookup,
  Outcome, ret, Bool-cases,
}
use cave.Types.{Time, Message, Codec, ReadsBack}
use cave.Token.{
  Token, TokenStore, entries, erase_entry, IssueInput, issue, delete, handle_update, validate,
}
use cave.Token.Validity.{
  under_lock-free, under_lock-held, state-inj, validate-none, validate-issue_ne,
}
use cave.Token.Expiry.{delete-found, lookup-delete}
use cave.Token.Replication.{validate-handle_update}

module _ (tokens : Codec (Option (Dict Token))) (messages : Codec Message) where
  delete-cluster :
      (k id : Bytes) (t : TokenStore) {v : Token} {r : Outcome (Unit {0})} {t' : TokenStore}
      → lookup k (entries t.store) ≡ some v
      → delete tokens messages k id t ≡ some (r, t')
      → t'.cluster ≡ t.cluster
  delete-cluster k id t {v} {r} {t'} e h =
      let found = delete-found tokens messages k id t {v = v} e in
      elim (Bool-cases t.locked) [
        | inl held ↦ absurd (cc (found, under_lock-held (erase_entry k) t held, h))
        | inr free ↦ sym (
            ap (λ (s : TokenStore). s.cluster)
              (state-inj (sym (found ∙ under_lock-free (erase_entry k) t free) ∙ h)))
      ]

  -- A deletion of a token that is there sends nothing to the other nodes. Once the node has then
  -- issued another token, under another id, and a node has handled the tokens that are there by then,
  -- if these survive their encoding, Validate refuses the deleted token at that node, whatever it is
  -- asked.
  pub validate-delete_heard :
      (k id : Bytes) (t : TokenStore) {v : Token} {r : Outcome (Unit {0})} {t₁ t₂ : TokenStore}
      (user typ : Bytes) (expire : List Bool) (i : IssueInput) {tok : Token} (m : Message)
      (peer : TokenStore) {u : Unit {0}} {peer' : TokenStore} (typ' uid : Bytes) (now now' : Time)
      → lookup k (entries t.store) ≡ some v
      → delete tokens messages k id t ≡ some (r, t₁)
      → i.token ≢ k
      → issue tokens messages user typ expire i t₁ ≡ some (ret tok, t₂)
      → tokens.marshal t₂.store ≡ ret m.payload
      → ReadsBack tokens t₂.store
      → handle_update tokens messages m peer ≡ some (ret u, peer')
      → (t₁.cluster ≡ t.cluster) × (validate typ' uid k now now' peer' ≡ false)
  validate-delete_heard k id t {v} {r} {t₁} {t₂} user typ expire i {tok} m peer {u} {peer'} typ' uid
        now now' there gone ne issued sent back heard =
      (
        delete-cluster k id t {v = v} {r = r} {t' = t₁} there gone,
        validate-handle_update tokens messages t₂ m peer {u = u} {t' = peer'} typ' uid k now now'
              sent back heard
            ∙ validate-issue_ne tokens messages user typ expire i t₁ {tok = tok} {t' = t₂} typ' uid
                k now now' issued ne
            ∙ validate-none typ' uid k now now' t₁
                (lookup-delete tokens messages k k id t {r = r} {t' = t₁} gone ∙ rw (eqb_refl k)),
      )

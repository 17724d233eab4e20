-- ===== src/Plugins/Laws.antt =====
-- The tokens that the plugins of a node are started with.
use cave.Base.{
  ◌+◌, ◌≤◌, ◌<◌, ◌≡◌, ◌≢◌, ◌↔◌, refl, sym, ap, subst, ◌∙◌, true, false, Option, some, [], ◌∷◌, All,
  Bytes, codes, Dict, Outcome, ret, fail, panic,
}
use cave.Types.{Time, Message, Codec}
use cave.Token.{Token, TokenStore, Sync, IssueInput, resume, and_then, issue, decade_term, validate}
use cave.Token.Validity.{validate-issue_iff, validate-issue_ne, state-inj, resume-ret}
use cave.Plugins.{
  PluginConfig, Manager, Files, plugin_list, plugin_type, options_of, lift, launch, new_plugins,
}

-- resume-ret after a call that leaves the token store alone
lift-ret :
    {A B : Type 0} (r : Outcome A) (t : TokenStore) (f : A → Sync B) {b : B} {t' : TokenStore}
    → resume (lift r t) f ≡ some (ret b, t')
    → (a : A) × (r ≡ ret a) × (f a t ≡ some (ret b, t'))
lift-ret (ret a) t f h = (a, refl, h)
lift-ret (fail e) t f h = absurd (cc)
lift-ret panic t f h = absurd (cc)

module _ {Settings : Type 0} where
  -- A token id that is none of those of the plugins.
  abbrev pub Unused : (Bytes → IssueInput) → Bytes → Dict (PluginConfig Settings) → Type 0
  Unused inputs tid = All (λ p. (inputs p.0).token ≢ tid)

  -- The UUIDs of the tokens are distinct.
  abbrev pub Distinct : (Bytes → IssueInput) → Dict (PluginConfig Settings) → Type 0
  Distinct inputs [] = Unit
  Distinct inputs ((k, i) ∷ plugs) = Unused inputs (inputs k).token plugs × Distinct inputs plugs

  -- Validate accepts the token of a plugin exactly for the plugin's name and type, from its issue on
  -- and for ten years.
  abbrev pub IsHeld :
      (Bytes → IssueInput)
      → (typ uid : Bytes) → (now now' : Time) → TokenStore
      → Bytes × PluginConfig Settings
      → Type 0
  IsHeld inputs typ uid now now' t (k, i) =
      (validate typ uid (inputs k).token now now' t ≡ true) ↔ (
        ((inputs k).issued ≤ now)
        × (now' < (inputs k).now + decade_term)
        × (i.name ≡ uid)
        × (plugin_type i ≡ typ))

module _ {Settings : Type 0} (M : Manager Settings) (tokens : Codec (Option (Dict Token)))
    (messages : Codec Message) where
  launch-keeps :
      (inputs : Bytes → IssueInput) (plugs : Dict (PluginConfig Settings)) (m : M.State)
      (t : TokenStore) {m' : M.State} {t' : TokenStore} (typ uid tid : Bytes) (now now' : Time)
      → Unused inputs tid plugs
      → launch M tokens messages inputs plugs m t ≡ some (ret m', t')
      → validate typ uid tid now now' t' ≡ validate typ uid tid now now' t
  unfolding launch
  launch-keeps inputs [] m t typ uid tid now now' u h =
      ap (validate typ uid tid now now') (sym (state-inj h))
  launch-keeps inputs ((k, i) ∷ plugs) m t {m'} {t'} typ uid tid now now' (ne, u) h =
      let (tok, s, issued, h₁) =
        resume-ret (issue tokens messages i.name (plugin_type i) (false ∷ []) (inputs k) t)
          (λ tok.
            and_then (lift (M.new_process (options_of i tok) m))
              (launch M tokens messages inputs plugs))
          h in
      let (m₁, _, h₂) =
        lift-ret (M.new_process (options_of i tok) m) s (launch M tokens messages inputs plugs)
          h₁ in
      launch-keeps inputs plugs m₁ s {m' = m'} {t' = t'} typ uid tid now now' u h₂
      ∙ validate-issue_ne tokens messages i.name (plugin_type i) (false ∷ []) (inputs k) t typ uid
          tid now now' issued ne

  launch-validate :
      (inputs : Bytes → IssueInput) (plugs : Dict (PluginConfig Settings)) (m : M.State)
      (t : TokenStore) {m' : M.State} {t' : TokenStore} (typ uid : Bytes) (now now' : Time)
      → Distinct inputs plugs
      → launch M tokens messages inputs plugs m t ≡ some (ret m', t')
      → All (IsHeld inputs typ uid now now' t') plugs
  unfolding launch
  launch-validate inputs [] m t typ uid now now' d h = tt
  launch-validate inputs ((k, i) ∷ plugs) m t {m'} {t'} typ uid now now' (u, d) h =
      let (tok, s, issued, h₁) =
        resume-ret (issue tokens messages i.name (plugin_type i) (false ∷ []) (inputs k) t)
          (λ tok.
            and_then (lift (M.new_process (options_of i tok) m))
              (launch M tokens messages inputs plugs))
          h in
      let (m₁, _, h₂) =
        lift-ret (M.new_process (options_of i tok) m) s (launch M tokens messages inputs plugs)
          h₁ in
      let kept : validate typ uid (inputs k).token now now' t'
          ≡ validate typ uid (inputs k).token now now' s =
        launch-keeps inputs plugs m₁ s {m' = m'} {t' = t'} typ uid (inputs k).token now now' u h₂ in
      let (to, from) =
        validate-issue_iff tokens messages i.name (plugin_type i) (false ∷ []) (inputs k) t typ uid
          now now' issued in
      (
        ((λ a. to (sym kept ∙ a)), λ b. kept ∙ from b),
        launch-validate inputs plugs m₁ s {m' = m'} {t' = t'} typ uid now now' d h₂,
      )

  -- When NewPlugins succeeds and the UUIDs it drew are distinct, then Validate accepts the token of
  -- each listed plugin exactly for the plugin's name and `plugin:` with its type, from its issue on
  -- and until the ten years of a token without expiry are over, in whatever order the plugins were
  -- started.
  pub new_plugins-validate :
      (F : Files Settings) (range : Dict (PluginConfig Settings) → Dict (PluginConfig Settings))
      (inputs : Bytes → IssueInput) (t : TokenStore) {plugs : Dict (PluginConfig Settings)}
      {m' : M.State} {t' : TokenStore} (typ uid : Bytes) (now now' : Time)
      → plugin_list F (codes "./plugins.d") ≡ ret plugs
      → Distinct inputs (range plugs)
      → new_plugins M tokens messages F range inputs t ≡ some (ret m', t')
      → All (IsHeld inputs typ uid now now' t') (range plugs)
  unfolding new_plugins
  new_plugins-validate F range inputs t {plugs} {m'} {t'} typ uid now now' listed d h =
      let (m, _, h₁) = lift-ret M.start t _ h in
      let (plugs', l, h₂) = lift-ret (plugin_list F (codes "./plugins.d")) t _ h₁ in
      let same : plugs' ≡ plugs = cc in
      launch-validate inputs (range plugs) m t {m' = m'} {t' = t'} typ uid now now' d
        (subst (λ x. launch M tokens messages inputs (range x) m t ≡ some (ret m', t')) same h₂)

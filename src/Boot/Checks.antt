-- ===== src/Boot/Checks.antt =====
-- What getConfig has checked of a configuration that decoded.
use cave.Base.{
  ◌≡◌, ◌≢◌, ◌⊎◌, refl, subst, inl, inr, Bytes, codes, eqb, eqb_iff, Outcome, ret, fail, panic,
  then-ret, ret-inj, Bool-cases,
}
use cave.Boot.{Config, loaded, check_mode, with_host, settle_config}

loaded-inj : {c d : Config} → loaded c ≡ loaded d → c ≡ d
loaded-inj e = cc

check_mode-loaded :
    (c : Config) {d : Config}
    → check_mode c ≡ loaded d
    → (c ≡ d) × ((c.mode ≡ codes "prod") ⊎ (c.mode ≡ codes "dev"))
unfolding check_mode
check_mode-loaded c h = elim (Bool-cases (eqb c.mode (codes "prod"))) [
  | inl p ↦ (loaded-inj (rw p at h), inl ((eqb_iff c.mode (codes "prod")).0 p))
  | inr p ↦ elim (Bool-cases (eqb c.mode (codes "dev"))) [
    | inl q ↦ (loaded-inj (rw (p, q) at h), inr ((eqb_iff c.mode (codes "dev")).0 q))
    | inr q ↦ absurd (cc (rw (p, q) at h))
  ]
]

-- A configuration that decoded and that getConfig returns is in one of the two modes.
pub settle_config-mode :
    (local : Outcome Bytes) (c : Config) {d : Config}
    → settle_config local (ret tt, c) ≡ ret (loaded d)
    → (d.mode ≡ codes "prod") ⊎ (d.mode ≡ codes "dev")
unfolding settle_config
settle_config-mode local c {d} h =
    let (e, _, h₁) = then-ret (with_host local c) _ h in
    let (same, mode) = check_mode-loaded e (ret-inj h₁) in
    subst (λ (x : Config). (x.mode ≡ codes "prod") ⊎ (x.mode ≡ codes "dev")) same mode

-- One that did not decode is returned as it is, whatever its mode.
pub settle_config-undecoded :
    (local : Outcome Bytes) (c : Config) (r : Outcome (Unit {0}))
    → r ≢ ret tt
    → r ≢ panic
    → settle_config local (r, c) ≡ ret (loaded c)
unfolding settle_config
settle_config-undecoded local c (ret u) h k = absurd (h refl)
settle_config-undecoded local c (fail e) h k = refl
settle_config-undecoded local c panic h k = absurd (k refl)

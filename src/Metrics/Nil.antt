-- ===== src/Metrics/Nil.antt =====
-- When a round of mainMetrics ends the program.
use cave.Base.{◌≡◌, ◌⊎◌, ◌↔◌, refl, inl, inr, none, some, Option-cases, List, ret, panic}
use cave.Metrics.{Pair, Runtime, Process, Call, calls_of, process_round, metrics_round}

module _ {V : Type 0} where
  -- What a round cannot do without.
  abbrev pub HasNil : Process V → Type 0
  HasNil p =
      (p.io_counters ≡ none)
      ⊎ ((p.net_io_counters ≡ none) ⊎ ((p.ctx_switches ≡ none) ⊎ (p.load_avg ≡ none)))

  none_nil :
      (p : Process V) {io net ctx : Pair} {ld : V × V × V}
      → p.io_counters ≡ some io
      → p.net_io_counters ≡ some net
      → p.ctx_switches ≡ some ctx
      → p.load_avg ≡ some ld
      → ¬ HasNil p
  none_nil p e f g k (inl h) = cc
  none_nil p e f g k (inr (inl h)) = cc
  none_nil p e f g k (inr (inr (inl h))) = cc
  none_nil p e f g k (inr (inr (inr h))) = cc

  process_round-cases :
      (p : Process V)
      → (process_round p ≡ panic) × HasNil p
        ⊎ ((cs : List (Call V)) × (process_round p ≡ ret cs) × ¬ HasNil p)
  unfolding process_round
  process_round-cases p = elim (Option-cases p.io_counters) [
    | inl e ↦ inl (rw e, inl e)
    | inr (io, e) ↦ elim (Option-cases p.net_io_counters) [
      | inl f ↦ inl (rw (e, f), inr (inl f))
      | inr (net, f) ↦ elim (Option-cases p.ctx_switches) [
        | inl g ↦ inl (rw (e, f, g), inr (inr (inl g)))
        | inr (ctx, g) ↦ elim (Option-cases p.load_avg) [
          | inl k ↦ inl (rw (e, f, g, k), inr (inr (inr k)))
          | inr (ld, k) ↦ inr (calls_of p io net ctx ld, simp (e, f, g, k), none_nil p e f g k)
        ]
      ]
    ]
  ]

  -- A round with a process ends the program exactly if gopsutil gave no counters of the IO, the network
  -- or the switches, or no load: the error that came with it was dropped.
  pub metrics_round-panic_iff :
      (r : Runtime) (p : Process V) → (metrics_round r (some p) ≡ panic) ↔ HasNil p
  unfolding metrics_round
  metrics_round-panic_iff r p = elim (process_round-cases p) [
    | inl (e, h) ↦ rw e (λ _. h, λ _. refl)
    | inr (cs, e, h) ↦ rw e (λ k. absurd (cc), λ k. absurd (h k))
  ]

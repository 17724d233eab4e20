-- ===== src/Bolt/Transactions.antt =====
-- What is known of a transaction from its result.
use cave.Base.{
  ◌≡◌, sym, subst, inl, inr, arith, Err, Outcome, ret, fail, panic, Exec, Outcome-cases,
}
use cave.Bolt.{Bolt, IsBolt, Updated}

Updated-ret :
    {S : Type 0} (old : S) (b r : Outcome (Unit {0}) × S) {u : Unit {0}}
    → Updated old b r
    → r.0 ≡ ret u
    → (b.0 ≡ ret u) × (r ≡ (ret u, b.1))
Updated-ret old (ret w, new) r h e = ground arith
Updated-ret old (fail x, new) r h e = ground arith
Updated-ret old (panic, new) r h e = ground arith

Updated-fail :
    {S : Type 0} (old : S) (b r : Outcome (Unit {0}) × S) {e : Err}
    → Updated old b r
    → r.0 ≡ fail e
    → (b.0 ≡ fail e) × (r ≡ (fail e, old))
Updated-fail old (ret w, new) r h e = ground arith
Updated-fail old (fail x, new) r h e = ground arith
Updated-fail old (panic, new) r h e = ground arith

Updated-panic :
    {S : Type 0} (old : S) (b r : Outcome (Unit {0}) × S)
    → Updated old b r
    → r.0 ≡ panic
    → (b.0 ≡ panic) × (r ≡ (panic, old))
Updated-panic old (ret w, new) r h e = ground arith
Updated-panic old (fail x, new) r h e = ground arith
Updated-panic old (panic, new) r h e = ground arith

module _ (B : Bolt) (L : IsBolt B) where
  pub update-ret :
      (body : Exec B.State (Unit {0})) (s : B.State) {u : Unit {0}}
      → (B.update body s).0 ≡ ret u
      → ((body s).0 ≡ ret u) × (B.update body s ≡ (ret u, (body s).1))
  update-ret body s e = Updated-ret s (body s) (B.update body s) (L.update_lem body s) e

  pub update-fail :
      (body : Exec B.State (Unit {0})) (s : B.State) {x : Err}
      → (B.update body s).0 ≡ fail x
      → ((body s).0 ≡ fail x) × (B.update body s ≡ (fail x, s))
  update-fail body s e = Updated-fail s (body s) (B.update body s) (L.update_lem body s) e

  pub update-panic :
      (body : Exec B.State (Unit {0})) (s : B.State)
      → (B.update body s).0 ≡ panic
      → ((body s).0 ≡ panic) × (B.update body s ≡ (panic, s))
  update-panic body s e = Updated-panic s (body s) (B.update body s) (L.update_lem body s) e

  -- What holds of the old state and of what a body that succeeds leaves holds after the transaction.
  pub update-keeps {κ} :
      (P : B.State → Type κ) (body : Exec B.State (Unit {0})) (s : B.State)
      → P s
      → ((u : Unit {0}) → (body s).0 ≡ ret u → P (body s).1)
      → P (B.update body s).1
  update-keeps P body s old new = elim (Outcome-cases (B.update body s).0) [
    | inl (u, c) ↦
        let (done, commit) = update-ret body s c in
        subst (λ (r : Outcome (Unit {0}) × B.State). P r.1) (sym commit) (new u done)
    | inr (inl (x, c)) ↦
        subst (λ (r : Outcome (Unit {0}) × B.State). P r.1) (sym (update-fail body s c).1) old
    | inr (inr c) ↦
        subst (λ (r : Outcome (Unit {0}) × B.State). P r.1) (sym (update-panic body s c).1) old
  ]

  -- The other way: from what the body does.
  pub update_of_ret :
      (body : Exec B.State (Unit {0})) (s : B.State) {u : Unit {0}}
      → (body s).0 ≡ ret u
      → B.update body s ≡ (ret u, (body s).1)
  update_of_ret body s {u} e = Updated_body (body s) e (L.update_lem body s)
    where
      Updated_body :
          (b : Outcome (Unit {0}) × B.State)
          → b.0 ≡ ret u
          → Updated s b (B.update body s)
          → B.update body s ≡ (ret u, b.1)
      Updated_body (ret w, new) e' h = ground arith
      Updated_body (fail x, new) e' h = cc
      Updated_body (panic, new) e' h = cc

  pub update_of_fail :
      (body : Exec B.State (Unit {0})) (s : B.State) {x : Err}
      → (body s).0 ≡ fail x
      → B.update body s ≡ (fail x, s)
  update_of_fail body s {x} e = Updated_body (body s) e (L.update_lem body s)
    where
      Updated_body :
          (b : Outcome (Unit {0}) × B.State)
          → b.0 ≡ fail x
          → Updated s b (B.update body s)
          → B.update body s ≡ (fail x, s)
      Updated_body (ret w, new) e' h = cc
      Updated_body (fail y, new) e' h = ground arith
      Updated_body (panic, new) e' h = cc

  pub update_of_panic :
      (body : Exec B.State (Unit {0})) (s : B.State)
      → (body s).0 ≡ panic
      → B.update body s ≡ (panic, s)
  update_of_panic body s e = Updated_body (body s) e (L.update_lem body s)
    where
      Updated_body :
          (b : Outcome (Unit {0}) × B.State)
          → b.0 ≡ panic
          → Updated s b (B.update body s)
          → B.update body s ≡ (panic, s)
      Updated_body (ret w, new) e' h = cc
      Updated_body (fail y, new) e' h = cc
      Updated_body (panic, new) e' h = h

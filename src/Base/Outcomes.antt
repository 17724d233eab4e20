-- ===== src/Base/Outcomes.antt =====
-- What a Go call ends in: a value, a non-nil error, or a panic. `Exec` is such a call on a state;
-- what was written before an error stays written.
use Prim.Native.Nat.{ℕ}
use mathlib.Core.Path.{◌≡◌, refl}
use mathlib.Core.Logic.{◌⊎◌, inl, inr}
use mathlib.Core.List.{List}

-- An error value. Those of the store have a name of their own, since callers compare with one;
-- `message` is an error that the program formats, and `foreign` any other error of a library.
pub data Err : Type 0 where
  bucket_not_found bucket_name_required key_required : Err
  key_too_large value_too_large incompatible_value : Err
  message : List ℕ → Err
  foreign : List ℕ → Err

pub data Outcome {ℓ} (A : Type ℓ) : Type ℓ where
  ret : A → Outcome A
  fail : Err → Outcome A
  panic : Outcome A

abbrev pub Exec {ℓ} : Type ℓ → Type ℓ → Type ℓ
Exec S A = S → Outcome A × S

abbrev pub then_do {ℓ κ} :
    {S : Type ℓ} {A : Type κ} {B : Type ℓ} → Outcome A → (A → Exec S B) → Exec S B
then_do (ret a) f s = f a s
then_do (fail e) f s = (fail e, s)
then_do panic f s = (panic, s)

module _ {ℓ} {S A B : Type ℓ} where
  infixl 5 ◌>>=◌ ◌>>◌
  abbrev pub ◌>>=◌ : Exec S A → (A → Exec S B) → Exec S B
  ◌>>=◌ m f s = let (r, s') = m s in then_do r f s'

  abbrev pub ◌>>◌ : Exec S A → Exec S B → Exec S B
  m >> k = m >>= λ _. k

module _ {ℓ} {S A : Type ℓ} where
  abbrev pub pure : A → Exec S A
  pure a s = (ret a, s)

  abbrev pub lift : Outcome A → Exec S A
  lift r s = (r, s)

  abbrev pub raise : Err → Exec S A
  raise e s = (fail e, s)

module _ {ℓ κ} {A : Type ℓ} {B : Type κ} where
  infixl 5 ◌>>?◌
  abbrev pub ◌>>?◌ : Outcome A → (A → Outcome B) → Outcome B
  ret a >>? f = f a
  fail e >>? f = fail e
  panic >>? f = panic

pub Outcome-cases {ℓ} :
    {A : Type ℓ} (r : Outcome A)
    → ((a : A) × (r ≡ ret a)) ⊎ (((e : Err) × (r ≡ fail e)) ⊎ (r ≡ panic))
Outcome-cases (ret a) = inl (a, refl)
Outcome-cases (fail e) = inr (inl (e, refl))
Outcome-cases panic = inr (inr refl)

pub ret-inj {ℓ} : {A : Type ℓ} {a b : A} → ◌≡◌ {A = Outcome A} (ret a) (ret b) → a ≡ b
ret-inj e = cc

-- A chain that gives a value has gone through its first call.
pub then-ret {ℓ κ} :
    {A : Type ℓ} {C : Type κ} (r : Outcome A) (f : A → Outcome C) {c : C}
    → (r >>? f) ≡ ret c
    → (a : A) × (r ≡ ret a) × (f a ≡ ret c)
then-ret (ret a) f h = (a, refl, h)
then-ret (fail e) f h = absurd (cc)
then-ret panic f h = absurd (cc)

then_do_round {ℓ} :
    {S A B : Type ℓ} (x : Outcome A × S) (f : A → Exec S B) {b : B} {s' : S}
    → then_do x.0 f x.1 ≡ (ret b, s')
    → (a : A) × (t : S) × (x ≡ (ret a, t)) × (f a t ≡ (ret b, s'))
then_do_round (ret a, t) f h = (a, t, refl, h)
then_do_round (fail e, t) f h = absurd (cc)
then_do_round (panic, t) f h = absurd (cc)

-- The same for a call on a state: the state goes from one call to the next.
pub bind-ret {ℓ} :
    {S A B : Type ℓ} (m : Exec S A) (f : A → Exec S B) (s : S) {b : B} {s' : S}
    → (m >>= f) s ≡ (ret b, s')
    → (a : A) × (t : S) × (m s ≡ (ret a, t)) × (f a t ≡ (ret b, s'))
bind-ret m f s h = then_do_round (m s) f h

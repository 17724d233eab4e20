-- ===== src/Base/Rules.antt =====
-- What a call on a state keeps, whatever it returns: the rules for the ways in which calls compose.
use mathlib.Core.Bool.{Bool, true, false}
use cave.Base.Tests.{if◌then◌else◌}
use cave.Base.Outcomes.{Outcome, ret, fail, panic, Exec, then_do, ◌>>=◌}

module _ {S : Type 0} (P : S → Type 0) where
  abbrev pub Keeps : {A : Type 0} → Exec S A → Type 0
  Keeps m = (s : S) → P s → P (m s).1

  pub Keeps-then_do :
      {A B : Type 0} (o : Outcome A) (f : A → Exec S B)
      → ((a : A) → Keeps (f a))
      → Keeps (then_do o f)
  Keeps-then_do (ret a) f k s h = k a s h
  Keeps-then_do (fail e) f k s h = h
  Keeps-then_do panic f k s h = h

  pub Keeps-bind :
      {A B : Type 0} (m : Exec S A) (f : A → Exec S B)
      → Keeps m
      → ((a : A) → Keeps (f a))
      → Keeps (m >>= f)
  Keeps-bind m f k j s h = Keeps-then_do (m s).0 f j (m s).1 (k s h)

  pub Keeps-if :
      {A : Type 0} (b : Bool) (m k : Exec S A) → Keeps m → Keeps k → Keeps (if b then m else k)
  Keeps-if true m k x y = x
  Keeps-if false m k x y = y

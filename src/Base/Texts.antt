-- ===== src/Base/Texts.antt =====
-- A Go string or byte slice is its sequence of bytes. `codes` writes an ASCII literal.
use Prim.Native.Nat.{ℕ, compare, Ordering}
use Prim.Native.Char.{code}
use Prim.Native.String.{String}
use mathlib.Core.Path.{◌≡◌, refl}
use mathlib.Core.Logic.{◌↔◌}
use mathlib.Core.Bool.{Bool, true, false, ◌&&◌}
use mathlib.Core.List.{List, [], ◌∷◌}
use native.Mathlib.Omega.{arith}

abbrev pub Bytes : Type 0
Bytes = List ℕ

abbrev pub codes : String → Bytes
codes String.[] = []
codes (String.◌∷◌ c s) = code c ∷ codes s

same_byte : ℕ → ℕ → Bool
same_byte a b = elim (compare a b) [ Ordering.eq ↦ true | _ ↦ false ]

-- `==` on Go strings
unfoldable pub eqb : Bytes → Bytes → Bool
unfolding same_byte
eqb [] [] = true
eqb (a ∷ s) (b ∷ t) = same_byte a b && eqb s t
eqb _ _ = false

pub eqb_refl : (s : Bytes) → eqb s s ≡ true
unfolding eqb
eqb_refl [] = refl
eqb_refl (a ∷ s) = ground (arith, eqb_refl s)

pub eqb_sound : (s t : Bytes) → eqb s t ≡ true → s ≡ t
unfolding eqb
eqb_sound [] [] h = refl
eqb_sound [] (b ∷ t) h = cc
eqb_sound (a ∷ s) [] h = cc
eqb_sound (a ∷ s) (b ∷ t) h = ground (arith, eqb_sound s t)

pub eqb_iff : (s t : Bytes) → (eqb s t ≡ true) ↔ (s ≡ t)
eqb_iff s t = (eqb_sound s t, λ e. rw e (eqb_refl t))

-- `==` on two paths of bucket names
unfoldable pub path_eqb : List Bytes → List Bytes → Bool
path_eqb [] [] = true
path_eqb (a ∷ p) (b ∷ q) = eqb a b && path_eqb p q
path_eqb _ _ = false

pub path_eqb_refl : (p : List Bytes) → path_eqb p p ≡ true
unfolding path_eqb
path_eqb_refl [] = refl
path_eqb_refl (a ∷ p) = ground (arith, path_eqb_refl p, eqb_refl a)

pub path_eqb_sound : (p q : List Bytes) → path_eqb p q ≡ true → p ≡ q
unfolding path_eqb
path_eqb_sound [] [] h = refl
path_eqb_sound [] (b ∷ q) h = cc
path_eqb_sound (a ∷ p) [] h = cc
path_eqb_sound (a ∷ p) (b ∷ q) h = ground (arith, path_eqb_sound p q, eqb_iff a b)

pub path_eqb_iff : (p q : List Bytes) → (path_eqb p q ≡ true) ↔ (p ≡ q)
path_eqb_iff p q = (path_eqb_sound p q, λ e. rw e (path_eqb_refl q))

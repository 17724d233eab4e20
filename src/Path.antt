-- ===== src/Path.antt =====
-- kv.go parsePath and api.go trimPath: how a slash-separated path names a bucket chain and a key;
-- with Go's strings.LastIndex, strings.Split and strings.HasSuffix at a one-byte separator.
pub mod Laws
use cave.Base.{
  ℕ, zero, suc, ◌+◌, ◌-◌, Bool, true, false, Option, none, some, List, [], ◌∷◌, Bytes, eqb, length,
  take, drop, ◌==◌, ltb, if◌then◌else◌, Outcome, ret, panic,
}

abbrev pub slash : ℕ
slash = 47

-- strings.LastIndex(s, sep); `none` is -1
unfoldable pub last_index : ℕ → Bytes → Option ℕ
last_index c [] = none
last_index c (x ∷ s) = elim (last_index c s) [
  | some i ↦ some (suc i)
  | none ↦ if x == c then some 0 else none
]

abbrev pub one_past : Option ℕ → ℕ
one_past none = 0
one_past (some i) = suc i

abbrev pub push : ℕ → List Bytes → List Bytes
push x [] = (x ∷ []) ∷ []
push x (p ∷ ps) = (x ∷ p) ∷ ps

-- strings.Split(s, sep)
unfoldable pub split : ℕ → Bytes → List Bytes
split c [] = [] ∷ []
split c (x ∷ s) = let rest = split c s in if x == c then [] ∷ rest else push x rest

-- strings.HasSuffix(s, sep)
unfoldable pub has_suffix : ℕ → Bytes → Bool
has_suffix c [] = false
has_suffix c (x ∷ []) = x == c
has_suffix c (x ∷ y ∷ s) = has_suffix c (y ∷ s)

unfoldable pub parse_path : Bytes → List Bytes × Bytes
unfolding last_index split
parse_path path =
    let last = drop (one_past (last_index slash path)) path in
    if eqb last path
    then ([], last)
    else (let paths = split slash path in (take (length paths - 1) paths, last))

-- path[len(prefix):], which panics on a shorter path
unfoldable pub trim_path : Bytes → Bytes → Outcome Bytes
trim_path path prefix =
    if ltb (length path) (length prefix) then panic else ret (drop (length prefix) path)

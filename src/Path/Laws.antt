-- ===== src/Path/Laws.antt =====
-- parsePath against the segments of the path.
use cave.Base.{
  ℕ, zero, suc, ◌-◌, ◌<◌, ◌≡◌, ◌≢◌, refl, sym, ap, ◌∙◌, inl, inr, true, none, some, List, [], ◌∷◌,
  ◌++◌, arith, Bytes, eqb_refl, eqb_iff, length, take, drop, All, ◌==◌, Bool-cases, Option-cases,
}
use native.Mathlib.Numerals.{unary_clauses}
use cave.Path.{slash, last_index, one_past, push, split, has_suffix, parse_path}

-- The path of a key below a chain of buckets, "b1/b2/…/key".
abbrev pub join_path : List Bytes → Bytes → Bytes
join_path [] key = key
join_path (b ∷ bs) key = b ++ (slash ∷ join_path bs key)

-- No byte of `s` is `c`.
abbrev pub Lacks : ℕ → Bytes → Type 0
Lacks c s = All (λ x. x ≢ c) s

abbrev pub init : List Bytes → List Bytes
init [] = []
init (x ∷ []) = []
init (x ∷ y ∷ r) = x ∷ init (y ∷ r)

abbrev pub last_of : List Bytes → Bytes
last_of [] = []
last_of (x ∷ []) = x
last_of (x ∷ y ∷ r) = last_of (y ∷ r)

pub take-init : (xs : List Bytes) → take (length xs - 1) xs ≡ init xs
take-init [] = refl
take-init (x ∷ []) = refl
take-init (x ∷ y ∷ r) =
    simp unary_clauses (ap (λ t. x ∷ t) (simp unary_clauses at (take-init (y ∷ r))))

-- Without a separator there is one segment.
split-one : (c : ℕ) (s : Bytes) → last_index c s ≡ none → split c s ≡ s ∷ []
unfolding last_index split
split-one c [] h = refl
split-one c (x ∷ s) h = ground (arith, split-one c s)

-- With a separator there are at least two.
abbrev Many : List Bytes → Type 0
Many (p ∷ q ∷ r) = Unit
Many _ = ⊥

Many-push : (x : ℕ) (ps : List Bytes) → Many ps → Many (push x ps)
Many-push x (p ∷ q ∷ r) m = tt
Many-push x [] m = m
Many-push x (p ∷ []) m = m

split-cons : (c : ℕ) (s : Bytes) → (p : Bytes) × (r : List Bytes) × (split c s ≡ p ∷ r)
unfolding split
split-cons c [] = ([], [], refl)
split-cons c (x ∷ s) =
    let (p, r, e) = split-cons c s in
    elim (Bool-cases (x == c)) [ inl h ↦ ([], split c s, rw h) | inr h ↦ (x ∷ p, r, rw (h, e)) ]

Many-cons : (p : Bytes) (ps : List Bytes) (q : Bytes) (r : List Bytes) → ps ≡ q ∷ r → Many (p ∷ ps)
Many-cons p [] q r e = cc
Many-cons p (a ∷ ps) q r e = tt

split-Many : (c : ℕ) (s : Bytes) {i : ℕ} → last_index c s ≡ some i → Many (split c s)
unfolding last_index split
split-Many c [] h = cc
split-Many c (x ∷ s) {i} h = elim (Bool-cases (x == c)) [
  | inl same ↦ rw same (let (q, r, e) = split-cons c s in Many-cons [] (split c s) q r e)
  | inr other ↦ rw other (elim (Option-cases (last_index c s)) [
    | inl e ↦ absurd (ground arith)
    | inr (j, e) ↦ Many-push x (split c s) (split-Many c s e)
  ])
]

last_of-push : (x : ℕ) (ps : List Bytes) → Many ps → last_of (push x ps) ≡ last_of ps
last_of-push x (p ∷ q ∷ r) m = refl
last_of-push x [] m = elim m [ ]
last_of-push x (p ∷ []) m = elim m [ ]

Many-ne-nil : (ps : List Bytes) → Many ps → ps ≢ []
Many-ne-nil [] m = absurd m
Many-ne-nil (p ∷ ps) m = λ e. cc

last_of-cons : (p : Bytes) (ps : List Bytes) → ps ≢ [] → last_of (p ∷ ps) ≡ last_of ps
last_of-cons p [] h = absurd (h refl)
last_of-cons p (q ∷ r) h = refl

-- What follows the last separator is the last segment.
drop-last_of : (c : ℕ) (s : Bytes) → drop (one_past (last_index c s)) s ≡ last_of (split c s)
unfolding last_index split
drop-last_of c [] = refl
drop-last_of c (x ∷ s) = elim (Option-cases (last_index c s)) [
  | inl e ↦ elim (Bool-cases (x == c)) [
    | inl same ↦ rw (e, same, split-one c s e)
    | inr other ↦ rw (e, other, split-one c s e)
  ]
  | inr (j, e) ↦
      let ih : drop (suc j) s ≡ last_of (split c s) = rw e at (drop-last_of c s) in
      let many : Many (split c s) = split-Many c s e in
      elim (Bool-cases (x == c)) [
        | inl same ↦ rw (e, same) (ih ∙ sym (last_of-cons [] (split c s) (Many-ne-nil _ many)))
        | inr other ↦ rw (e, other) (ih ∙ sym (last_of-push x (split c s) many))
      ]
]

length-drop-lt : (n : ℕ) (s : Bytes) → 0 < length s → length (drop (suc n) s) < length s
length-drop-lt n [] h = absurd (omega arith)
length-drop-lt zero (x ∷ s) h = omega arith
length-drop-lt (suc n) (x ∷ []) h = omega arith
length-drop-lt (suc n) (x ∷ y ∷ s) h = omega (arith, length-drop-lt n (y ∷ s))

drop-ne : (c : ℕ) (s : Bytes) (i : ℕ) → last_index c s ≡ some i → drop (suc i) s ≢ s
unfolding last_index
drop-ne c [] i h = λ _. cc
drop-ne c (x ∷ s) i h =
    λ e. absurd (omega (arith, length-drop-lt i (x ∷ s), ap (λ (t : Bytes). length t) e))

-- Both branches of parsePath at once: all segments but the last, and the last.
pub parse_path-segments :
    (path : Bytes)
    → parse_path path
      ≡ (take (length (split slash path) - 1) (split slash path), last_of (split slash path))
unfolding parse_path
parse_path-segments path = elim (Option-cases (last_index slash path)) [
  | inl e ↦ rw (e, eqb_refl, split-one slash path e)
  | inr (i, e) ↦ ground (
    arith,
    drop-last_of slash path,
    drop-ne slash path i e,
    eqb_iff (drop (one_past (last_index slash path)) path) path,
    take-init (split slash path),
  )
]

unfoldable pub joined : List Bytes → Bytes
joined ps = join_path (init ps) (last_of ps)

joined-nil : (ps : List Bytes) → ps ≢ [] → joined ([] ∷ ps) ≡ slash ∷ joined ps
unfolding joined
joined-nil [] h = absurd (h refl)
joined-nil (p ∷ ps) h = refl

joined-push : (x : ℕ) (ps : List Bytes) → ps ≢ [] → joined (push x ps) ≡ x ∷ joined ps
unfolding joined
joined-push x [] h = absurd (h refl)
joined-push x (p ∷ []) h = refl
joined-push x (p ∷ q ∷ r) h = refl

pub split-ne-nil : (c : ℕ) (s : Bytes) → split c s ≢ []
split-ne-nil c s = let (p, r, e) = split-cons c s in λ h. cc

pub joined-split : (s : Bytes) → joined (split slash s) ≡ s
unfolding split
joined-split [] = unfold joined in refl
joined-split (x ∷ s) = elim (Bool-cases (x == slash)) [
  | inl same ↦
      let e : x ≡ slash = ground arith in
      rw (same, joined-nil (split slash s) (split-ne-nil slash s), joined-split s) (cc)
  | inr other ↦ rw (other, joined-push x (split slash s) (split-ne-nil slash s), joined-split s)
]

-- Joining what parsePath returns gives the path back, whatever the path.
pub join_path-parse_path : (path : Bytes) → join_path (parse_path path).0 (parse_path path).1 ≡ path
unfolding joined
join_path-parse_path path = rw (parse_path-segments path, take-init) (joined-split path)

pub split_lacking : (c : ℕ) (p : Bytes) → Lacks c p → split c p ≡ p ∷ []
unfolding split
split_lacking c [] h = refl
split_lacking c (x ∷ p) (n, h) = ground (arith, split_lacking c p h)

split-append : (c : ℕ) (p s : Bytes) → Lacks c p → split c (p ++ c ∷ s) ≡ p ∷ split c s
unfolding split
split-append c [] s h = ground arith
split-append c (x ∷ p) s (n, h) = ground (arith, split-append c p s h)

-- A chain of slash-free names is read back from its path.
split-join_path :
    (bs : List Bytes) (key : Bytes)
    → All (Lacks slash) bs
    → Lacks slash key
    → split slash (join_path bs key) ≡ bs ++ key ∷ []
split-join_path [] key h k = split_lacking slash key k
split-join_path (b ∷ bs) key (hb, h) k =
    split-append slash b (join_path bs key) hb ∙ ap (λ t. b ∷ t) (split-join_path bs key h k)

pub init-snoc : (bs : List Bytes) (key : Bytes) → init (bs ++ key ∷ []) ≡ bs
init-snoc [] key = refl
init-snoc (b ∷ []) key = refl
init-snoc (b ∷ d ∷ bs) key = ap (λ t. b ∷ t) (init-snoc (d ∷ bs) key)

last_of-snoc : (bs : List Bytes) (key : Bytes) → last_of (bs ++ key ∷ []) ≡ key
last_of-snoc [] key = refl
last_of-snoc (b ∷ []) key = refl
last_of-snoc (b ∷ d ∷ bs) key = last_of-snoc (d ∷ bs) key

-- parsePath reads back every bucket chain and key whose names have no slash.
pub parse_path-join_path :
    (bs : List Bytes) (key : Bytes)
    → All (Lacks slash) bs
    → Lacks slash key
    → parse_path (join_path bs key) ≡ (bs, key)
parse_path-join_path bs key h k =
    rw (parse_path-segments, take-init, split-join_path bs key h k, init-snoc, last_of-snoc)

Many-after : (p : Bytes) (ps : List Bytes) → Many ps → Many (p ∷ ps)
Many-after p [] m = m
Many-after p (q ∷ r) m = tt

last_of-has_suffix :
    (c : ℕ) (s : Bytes) → has_suffix c s ≡ true → (last_of (split c s) ≡ []) × Many (split c s)
unfolding has_suffix split
last_of-has_suffix c [] h = cc
last_of-has_suffix c (x ∷ []) h = rw h (refl, tt)
last_of-has_suffix c (x ∷ y ∷ s) h =
    let (e, m) = last_of-has_suffix c (y ∷ s) h in
    elim (Bool-cases (x == c)) [
      | inl same ↦ rw same (last_of-cons [] _ (Many-ne-nil _ m) ∙ e, Many-after [] _ m)
      | inr other ↦ rw other (last_of-push x _ m ∙ e, Many-push x _ m)
    ]

-- A path that ends in a slash has the empty key.
pub parse_path-has_suffix : (path : Bytes) → has_suffix slash path ≡ true → (parse_path path).1 ≡ []
parse_path-has_suffix path h = rw parse_path-segments (last_of-has_suffix slash path h).0

Lacks-push : (c x : ℕ) (ps : List Bytes) → x ≢ c → All (Lacks c) ps → All (Lacks c) (push x ps)
Lacks-push c x [] n h = ((n, tt), tt)
Lacks-push c x (p ∷ ps) n (h, t) = ((n, h), t)

Lacks-split : (c : ℕ) (s : Bytes) → All (Lacks c) (split c s)
unfolding split
Lacks-split c [] = (tt, tt)
Lacks-split c (x ∷ s) = elim (Bool-cases (x == c)) [
  | inl same ↦ rw same (tt, Lacks-split c s)
  | inr other ↦ rw other (Lacks-push c x (split c s) (ground arith) (Lacks-split c s))
]

Lacks-init : (c : ℕ) (ps : List Bytes) → All (Lacks c) ps → All (Lacks c) (init ps)
Lacks-init c [] h = tt
Lacks-init c (x ∷ []) h = tt
Lacks-init c (x ∷ y ∷ r) (h, t) = (h, Lacks-init c (y ∷ r) t)

Lacks-last_of : (c : ℕ) (ps : List Bytes) → All (Lacks c) ps → Lacks c (last_of ps)
Lacks-last_of c [] h = tt
Lacks-last_of c (x ∷ []) (h, t) = h
Lacks-last_of c (x ∷ y ∷ r) (h, t) = Lacks-last_of c (y ∷ r) t

-- No bucket name and no key that parsePath returns has a slash.
pub parse_path-Lacks :
    (path : Bytes) → All (Lacks slash) (parse_path path).0 × Lacks slash (parse_path path).1
parse_path-Lacks path =
    rw (parse_path-segments, take-init)
      (Lacks-init slash _ (Lacks-split slash path), Lacks-last_of slash _ (Lacks-split slash path))

-- ===== src/Kv/Open/Database/Directory.antt =====
-- The directory that dbOpen makes.
use cave.Base.{
  ℕ, ◌+◌, ◌-◌, ◌≡◌, ◌≢◌, refl, ap, ◌∙◌, inl, inr, true, List, [], ◌∷◌, ◌++◌, Bytes, length, take,
  length-append, ltb, ◌>>◌, arith, ◌==◌, Bool-cases,
}
use cave.Path.{slash, split, push}
use cave.Path.Laws.{
  Lacks, joined, joined-split, init, take-init, init-snoc, split_lacking, split-ne-nil,
}
use cave.Kv.Open.Database.{Disk, join, make_parent, db_open}

join-joined : (ps : List Bytes) → join ps ≡ joined ps
unfolding join joined
join-joined [] = refl
join-joined (p ∷ []) = refl
join-joined (p ∷ q ∷ r) = ap (λ t. p ++ slash ∷ t) (join-joined (q ∷ r))

join-split : (s : Bytes) → join (split slash s) ≡ s
join-split s = join-joined (split slash s) ∙ joined-split s

push-append :
    (x : ℕ) (ps : List Bytes) (name : Bytes)
    → ps ≢ []
    → push x (ps ++ name ∷ []) ≡ push x ps ++ name ∷ []
push-append x [] name h = absurd (h refl)
push-append x (p ∷ ps) name h = refl

-- The parts of a path are those of its directory and the name.
split-directory :
    (dir name : Bytes)
    → Lacks slash name
    → split slash (dir ++ slash ∷ name) ≡ split slash dir ++ name ∷ []
unfolding split
split-directory [] name h = rw (split_lacking slash name h)
split-directory (x ∷ dir) name h = elim (Bool-cases (x == slash)) [
  | inl e ↦ rw (e, split-directory dir name h)
  | inr e ↦
      rw (e, split-directory dir name h)
        (push-append x (split slash dir) name (split-ne-nil slash dir))
]

parts :
    (ps : List Bytes) (name : Bytes)
    → ps ≢ []
    → (ltb 1 (length (ps ++ name ∷ [])) ≡ true)
      × (take (length (ps ++ name ∷ []) - 1) (ps ++ name ∷ []) ≡ ps)
parts [] name h = absurd (h refl)
parts (p ∷ ps) name h =
    let size : length (ps ++ name ∷ []) ≡ length ps + 1 = length-append ps (name ∷ []) in
    (ground (arith, size), take-init (p ∷ (ps ++ name ∷ [])) ∙ init-snoc (p ∷ ps) name)

module _ {D : Type 0} (K : Disk D) where
  -- dbOpen of a file that is not there, in some directory, makes this directory first, whatever else it
  -- names, and then opens the file; a failure to make it is returned.
  pub db_open-directory :
      (dir name : Bytes) (fs : K.Files)
      → Lacks slash name
      → K.is_missing (dir ++ slash ∷ name) fs ≡ true
      → db_open K (dir ++ slash ∷ name) fs ≡ (K.mkdir_all dir >> K.open_db (dir ++ slash ∷ name)) fs
  unfolding db_open make_parent
  db_open-directory dir name fs h m =
      let (long, init) = parts (split slash dir) name (split-ne-nil slash dir) in
      rw (m, split-directory dir name h, long, init, join-split dir)

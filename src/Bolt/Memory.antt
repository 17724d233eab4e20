-- ===== src/Bolt/Memory.antt =====
-- A store in memory that behaves as bbolt documents: the assumptions on the store can be met.
use cave.Base.{
  ◌≡◌, refl, ◌∙◌, Bool, true, false, List, [], ◌∷◌, ◌&&◌, Bytes, listed, eqb, eqb_refl, eqb_sound,
  path_eqb, path_eqb_sound, arith, if◌then◌else◌, Err, Outcome, ret, fail, panic, Bool-cases, inl,
  inr,
}
use cave.Bolt.{
  Handle, Slot, absent, bucket, Bolt, IsBolt, create_slot, put_slot, delete_slot,
  delete_bucket_slot, as_handle, child_of, value_of, same_place, below, is_present, Updated,
}

-- What was written, latest first; no bucket holds anything under the empty name.
abbrev pub Memory : Type 0
Memory = List (Handle × Bytes × Slot)

unfoldable pub find : Memory → Handle → Bytes → Slot
find [] q m = absent
find ((p, n, s) ∷ r) q m = if same_place p n q m then s else find r q m

unfoldable pub find_named : Memory → Handle → Bytes → Slot
unfolding find
find_named s p [] = absent
find_named s p (c ∷ n) = find s p (c ∷ n)

unfoldable pub clear : Handle → Memory → Memory
clear d [] = []
clear d ((p, n, s) ∷ r) = (p, n, if below d p then absent else s) ∷ clear d r

unfoldable pub names : Memory → Memory → Handle → List Bytes
unfolding find_named
names all [] q = []
names all ((p, n, s) ∷ r) q =
    let rest = names all r q in
    if path_eqb p q && is_present (find_named all q n) then n ∷ rest else rest

unfoldable pub clear_at : Outcome (Unit {0}) → Handle → Bytes → Memory → Memory
unfolding clear
clear_at (ret _) p n s = (p, n, absent) ∷ clear (n ∷ p) s
clear_at (fail e) p n s = s
clear_at panic p n s = s

unfoldable pub settle : Memory → Outcome (Unit {0}) × Memory → Outcome (Unit {0}) × Memory
settle old (ret u, new) = (ret tt, new)
settle old (fail e, new) = (fail e, old)
settle old (panic, new) = (panic, old)

abbrev pub memory : Bolt
memory = record {
  State = Memory;
  child = λ s p n. child_of p n (find_named s p n);
  create =
      λ p n s. let r = create_slot n (find_named s p n) in (as_handle (n ∷ p) r.0, (p, n, r.1) ∷ s);
  get = λ s p n. value_of (find_named s p n);
  put = λ p n v s. let r = put_slot n v (find_named s p n) in (r.0, (p, n, r.1) ∷ s);
  delete = λ p n s. let r = delete_slot (find_named s p n) in (r.0, (p, n, r.1) ∷ s);
  delete_bucket = λ p n s. let r = delete_bucket_slot (find_named s p n) in (r, clear_at r p n s);
  keys = λ s p. names s s p;
  update = λ body s. settle s (body s);
  view = λ body s. body s;
}

find_named-cons :
    (p : Handle) (n : Bytes) (w : Slot) (s : Memory) (q : Handle) (m : Bytes)
    → (n ≡ [] → w ≡ absent)
    → find_named ((p, n, w) ∷ s) q m ≡ (if same_place p n q m then w else find_named s q m)
unfolding find_named eqb
find_named-cons p [] w s q [] h = ground (arith, h)
find_named-cons p (c ∷ n) w s q [] h = ground arith
find_named-cons p n w s q (d ∷ m) h = refl

settle-Updated : (old : Memory) (r : Outcome (Unit {0}) × Memory) → Updated old r (settle old r)
unfolding settle
settle-Updated old (ret u, new) = refl
settle-Updated old (fail e, new) = refl
settle-Updated old (panic, new) = refl

find-clear :
    (d : Handle) (s : Memory) (q : Handle) (m : Bytes)
    → find (clear d s) q m ≡ (if below d q then absent else find s q m)
unfolding find clear
find-clear d [] q m = ground arith
find-clear d ((p, n, w) ∷ s) q m = elim (Bool-cases (path_eqb p q)) [
  | inl e ↦ rw e (rw (path_eqb_sound p q e) (ground (arith, find-clear d s q m)))
  | inr e ↦ rw e (find-clear d s q m)
]

mentioned : Memory → Handle → Bytes → Bool
mentioned [] q m = false
mentioned ((p, n, s) ∷ r) q m = if same_place p n q m then true else mentioned r q m

mentioned-present :
    (s : Memory) (q : Handle) (m : Bytes)
    → is_present (find_named s q m) ≡ true
    → mentioned s q m ≡ true
unfolding find_named mentioned
mentioned-present s q [] h = cc
mentioned-present [] q (c ∷ m) h = cc
mentioned-present ((p, n, w) ∷ s) q (c ∷ m) h = ground (arith, mentioned-present s q (c ∷ m))

listed-names :
    (all s : Memory) (q : Handle) (m : Bytes)
    → listed m (names all s q) ≡ (mentioned s q m && is_present (find_named all q m))
unfolding names mentioned
listed-names all [] q m = refl
listed-names all ((p, n, w) ∷ s) q m = elim (Bool-cases (eqb n m)) [
  | inl e ↦ rw (eqb_sound n m e) (ground (arith, eqb_refl m, listed-names all s q m))
  | inr e ↦ ground (arith, listed-names all s q m)
]

listed-keys :
    (s : Memory) (q : Handle) (m : Bytes) → listed m (names s s q) ≡ is_present (find_named s q m)
listed-keys s q m = ground (arith, listed-names s s q m, mentioned-present s q m)

find_named-clear :
    (d : Handle) (s : Memory) (q : Handle) (m : Bytes)
    → find_named (clear d s) q m ≡ (if below d q then absent else find_named s q m)
unfolding find_named
find_named-clear d s q [] = ground arith
find_named-clear d s q (c ∷ m) = find-clear d s q (c ∷ m)

create_slot-nil : (n : Bytes) (s : Slot) → s ≡ absent → n ≡ [] → (create_slot n s).1 ≡ absent
create_slot-nil [] s a e = a
create_slot-nil (c ∷ n) s a e = cc

put_slot-nil : (n v : Bytes) (s : Slot) → s ≡ absent → n ≡ [] → (put_slot n v s).1 ≡ absent
put_slot-nil [] v s a e = a
put_slot-nil (c ∷ n) v s a e = cc

delete_slot-nil :
    (n : Bytes) (s : Slot) → (n ≡ [] → s ≡ absent) → n ≡ [] → (delete_slot s).1 ≡ absent
delete_slot-nil n s a e = ground (arith, a e)

find_named-nil : (s : Memory) (p : Handle) (n : Bytes) → n ≡ [] → find_named s p n ≡ absent
unfolding find_named
find_named-nil s p [] e = refl
find_named-nil s p (c ∷ n) e = cc

delete_bucket-clears :
    (p : Handle) (n : Bytes) (s : Memory) (q : Handle) (m : Bytes)
    → find_named s p n ≡ bucket
    → find_named (clear_at (delete_bucket_slot (find_named s p n)) p n s) q m ≡ (
        if same_place p n q m then absent else if below (n ∷ p) q then absent else find_named s q m)
unfolding clear_at
delete_bucket-clears p n s q m e =
    rw e (find_named-cons p n absent (clear (n ∷ p) s) q m (λ _. refl) ∙ rw find_named-clear)

delete_bucket-keeps :
    (p : Handle) (n : Bytes) (s : Memory) (q : Handle) (m : Bytes) (e : Err)
    → delete_bucket_slot (find_named s p n) ≡ fail e
    → find_named (clear_at (delete_bucket_slot (find_named s p n)) p n s) q m ≡ find_named s q m
unfolding clear_at
delete_bucket-keeps p n s q m e h = rw h

pub memory-IsBolt : IsBolt memory
memory-IsBolt = record {
  slot = find_named;
  slot-nil = λ s p. find_named-nil s p [] refl;
  listed-keys = listed-keys;
  child_lem = λ s p n. refl;
  get_lem = λ s p n. refl;
  create_lem = λ p n s. refl;
  slot-create = λ p n s q m.
      find_named-cons p n _ s q m
        (λ e. create_slot-nil n (find_named s p n) (find_named-nil s p n e) e);
  put_lem = λ p n v s. refl;
  slot-put = λ p n v s q m.
      find_named-cons p n _ s q m
        (λ e. put_slot-nil n v (find_named s p n) (find_named-nil s p n e) e);
  delete_lem = λ p n s. refl;
  slot-delete = λ p n s q m.
      find_named-cons p n _ s q m
        (λ e. delete_slot-nil n (find_named s p n) (find_named-nil s p n) e);
  delete_bucket_lem = λ p n s. refl;
  slot-delete_bucket = delete_bucket-clears;
  slot-delete_bucket_fails = delete_bucket-keeps;
  update_lem = λ body s. settle-Updated s (body s);
  view_lem = λ body s. refl;
}

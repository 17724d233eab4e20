-- ===== src/Tests/Nearest.antt =====
-- The theorems on the nearest neighbour at a table of two entries, sorted by insertion.
use mathlib.Core.List.{Mem, Perm, Pairwise, Pairwise-singleton, forall_mem-cons}
use mathlib.Core.List.Perm
use native.Mathlib.Bridge.{le_prop}
use cave.Base.{
  ℕ, ◌≡◌, ◌≢◌, refl, inl, inr, true, false, some, List, [], ◌∷◌, codes, leb, ◌≤◌, Bool-cases,
  if◌then◌else◌, arith, Outcome, ret,
}
use cave.Path.{split}
use cave.Types.{prod}
use cave.Cluster.{Cluster, Location}
use cave.Cluster.Sync.{Network, sync_message, sync_request}
use cave.Cluster.Sync.Nearest.{IsSort, Ascending, IsAsked, sync_request-IsAsked}
use cave.Tests.Nodes.{json, cluster_of}

abbrev place : Location → List Location → List Location
place l [] = l ∷ []
place l (m ∷ ls) = if leb l.distance m.distance then l ∷ m ∷ ls else m ∷ place l ls

abbrev sorted : List Location → List Location
sorted [] = []
sorted (l ∷ ls) = place l (sorted ls)

place-perm : (l : Location) (ls : List Location) → Perm (place l ls) (l ∷ ls)
place-perm l [] = Perm.rfl
place-perm l (m ∷ ls) = elim (Bool-cases (leb l.distance m.distance)) [
  | inl e ↦ rw e Perm.rfl
  | inr e ↦ rw e (Perm.trans (Perm.cons m (place-perm l ls)) (Perm.swap l m ls))
]

abbrev Below : Location → List Location → Type 0
Below l ls = (m : Location) → Mem m ls → l.distance ≤ m.distance

Below-cons :
    (l m : Location) (ls : List Location) → l.distance ≤ m.distance → Below l ls → Below l (m ∷ ls)
Below-cons l m ls p h =
    (forall_mem-cons (λ (k : Location). le_prop {n = l.distance} {m = k.distance})).1 (p, h)

leb-le : (a b : ℕ) → leb a b ≡ true → a ≤ b
leb-le a b e = ground arith

leb-ge : (a b : ℕ) → leb a b ≡ false → b ≤ a
leb-ge a b e = ground arith

place-Ascending : (l : Location) (ls : List Location) → Ascending ls → Ascending (place l ls)
place-Ascending l [] s = Pairwise-singleton _ l
place-Ascending l (m ∷ ls) (Pairwise.cons h s) = elim (Bool-cases (leb l.distance m.distance)) [
  | inl e ↦
      let p = leb-le l.distance m.distance e in
      rw e
        (Pairwise.cons (Below-cons l m ls p (λ k i. omega (arith, p, h k i))) (Pairwise.cons h s))
  | inr e ↦
      let p = leb-ge l.distance m.distance e in
      rw e (
        Pairwise.cons (λ k i. Below-cons m l ls p h k ((Perm.mem_iff (place-perm l ls)).0 i))
          (place-Ascending l ls s))
]

sorted-IsSort : IsSort sorted
sorted-IsSort = record { same = sorted-perm; ascending = sorted-Ascending }
  where
    sorted-perm : (ls : List Location) → Perm (sorted ls) ls
    sorted-perm [] = Perm.rfl
    sorted-perm (l ∷ ls) = Perm.trans (place-perm l (sorted ls)) (Perm.cons l (sorted-perm ls))

    sorted-Ascending : (ls : List Location) → Ascending (sorted ls)
    sorted-Ascending [] = Pairwise.nil
    sorted-Ascending (l ∷ ls) = place-Ascending l (sorted ls) (sorted-Ascending ls)

abbrev net : Network
net = record { sorted = sorted; send = λ address b. ret tt }

abbrev far : Location
far = record { id = 1 ∷ []; address = codes "far:1"; distance = 9 }

abbrev near : Location
near = record { id = 2 ∷ []; address = codes "near:1"; distance = 2 }

abbrev joining : Cluster
joining = record (cluster_of prod) { location_table = far ∷ near ∷ [] }

not_empty : joining.location_table ≢ []
not_empty e = cc

sync_request-IsAsked_example :
    (r : Outcome (Unit {0}) × Cluster) × (sync_request json.messages net
        (codes "99")
        (5 ∷ [])
        (some (ret tt))
        joining
      ≡ some r)
    × IsAsked net (4 ∷ codes "me:99") joining r
unfolding split sync_message
sync_request-IsAsked_example =
    sync_request-IsAsked json.messages net sorted-IsSort (codes "99") (5 ∷ []) joining
      {own = codes "me:1"} refl not_empty refl refl

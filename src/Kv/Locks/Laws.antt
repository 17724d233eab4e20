-- ===== src/Kv/Locks/Laws.antt =====
-- A lock that is set and released again.
use cave.Base.{
  ◌≡◌, refl, ap, sym, subst, subst₂, then_do, inl, inr, Bool, true, none, some, List, [], ◌∷◌, ◌++◌,
  Bytes, eqb, eqb_refl, suc, length, drop, append-nil, take-length-append, Outcome, ret, ret-inj,
  Outcome-cases, Option-cases, Bool-cases,
}
use cave.Types.{Lock, KvObject, ReadsBack}
use cave.Bolt.{Bolt, IsBolt}
use cave.Kv.{Json, Node, get_object, put_object}
use cave.Kv.Put.{get_object-put_object}
use cave.Kv.Locks.{LockInput, find_lock, remove_at, new_lock, lock_as, lock, unlock}

find_lock-append :
    (id : Bytes) (ls : List Lock) (l : Lock)
    → find_lock id ls ≡ none
    → eqb l.lock_id id ≡ true
    → find_lock id (ls ++ l ∷ []) ≡ some (length ls)
unfolding find_lock
find_lock-append id [] l h e = rw e
find_lock-append id (k ∷ ls) l h e = elim (Bool-cases (eqb k.lock_id id)) [
  | inl f ↦ absurd (cc (rw f at h))
  | inr f ↦ elim (Option-cases (find_lock id ls)) [
    | inl g ↦ rw (f, find_lock-append id ls l g e)
    | inr (i, g) ↦ absurd (cc (rw (f, g) at h))
  ]
]

drop-suc-length : (ls : List Lock) (l : Lock) → drop (suc (length ls)) (ls ++ l ∷ []) ≡ []
drop-suc-length [] l = refl
drop-suc-length (k ∷ ls) l = drop-suc-length ls l

-- Removing the lock that was appended last gives the locks before.
remove_at-append :
    (ls : List Lock) (l : Lock) → remove_at (some (length ls)) (ls ++ l ∷ []) ≡ ret ls
unfolding remove_at
remove_at-append ls l = rw (take-length-append, drop-suc-length, append-nil)

-- The object with one more lock.
abbrev pub with_lock : KvObject → Lock → KvObject
with_lock o l = record o { locks = o.locks ++ l ∷ [] }

module _ (B : Bolt) (L : IsBolt B) (J : Json) where
  lock-lock_as :
      (key prefix : Bytes) (e : List Bool) (i : LockInput) (n : Node B) {a : Outcome Bytes}
      → n.cluster.address ≡ a
      → lock B J key prefix e i n ≡ then_do a (lock_as B J key prefix i) n
  unfolding lock
  lock-lock_as key prefix e i n a =
      ap (λ (r : Outcome Bytes). then_do r (lock_as B J key prefix i) n) a

  -- A Lock that succeeds has put the object back with one more lock.
  pub lock-inv :
      (key prefix : Bytes) (e : List Bool) (i : LockInput) (n : Node B) {l : Lock} {o : KvObject}
      → get_object B J key prefix n ≡ ret o
      → (lock B J key prefix e i n).0 ≡ ret l
      → (addr : Bytes) × (n.cluster.address ≡ ret addr)
        × (l ≡ new_lock key prefix addr i)
        × (let put =
              put_object B J key
                (with_lock o (new_lock key prefix addr i))
                prefix
                o.secret
                (true ∷ [])
                i.message_id
                n in
            (put.0 ≡ ret tt) × ((lock B J key prefix e i n).1 ≡ put.1))
  unfolding lock_as
  lock-inv key prefix e i n {l} {o} g h = elim (Outcome-cases n.cluster.address) [
    | inl (addr, a) ↦
        let new = new_lock key prefix addr i in
        let put = put_object B J key (with_lock o new) prefix o.secret (true ∷ []) i.message_id n in
        let step = lock-lock_as key prefix e i n a in
        elim (Outcome-cases put.0) [
          | inl (u, p) ↦
              let k : ret new ≡ ret l = rw (step, g, p) at h in
              (addr, a, sym (ret-inj k), (p, rw (step, g, p)))
          | inr (inl (x, p)) ↦ absurd (cc (rw (step, g, p) at h))
          | inr (inr p) ↦ absurd (cc (rw (step, g, p) at h))
        ]
    | inr (inl (x, a)) ↦ absurd (cc (rw (lock-lock_as key prefix e i n a) at h))
    | inr (inr a) ↦ absurd (cc (rw (lock-lock_as key prefix e i n a) at h))
  ]

  -- Unlock of a lock that the object has puts the object back without it.
  unlock-put :
      (l : Lock) (e : List Bool) (id : Bytes) (n : Node B) {o : KvObject} {rest : List Lock}
      → get_object B J l.key l.prefix n ≡ ret o
      → remove_at (find_lock l.lock_id o.locks) o.locks ≡ ret rest
      → unlock B J l e id n
        ≡ put_object B J l.key (record o { locks = rest }) l.prefix o.secret (true ∷ []) id n
  unfolding unlock
  unlock-put l e id n g r = rw (g, r)

  at_lock :
      (n : Node B) {key prefix key' prefix' : Bytes} {o : KvObject}
      → key ≡ key'
      → prefix ≡ prefix'
      → get_object B J key prefix n ≡ ret o
      → get_object B J key' prefix' n ≡ ret o
  at_lock n {o} e f g = subst₂ (λ (x y : Bytes). get_object B J x y n ≡ ret o) e f g

  -- After a Lock that succeeds the object has one more lock, if it survives its encoding.
  pub get_object-lock :
      (key prefix : Bytes) (e : List Bool) (i : LockInput) (n : Node B) {l : Lock} {o : KvObject}
      → get_object B J key prefix n ≡ ret o
      → ReadsBack J.objects (with_lock o l)
      → (lock B J key prefix e i n).0 ≡ ret l
      → get_object B J key prefix (lock B J key prefix e i n).1 ≡ ret (with_lock o l)
  get_object-lock key prefix e i n {l} {o} g back h =
      let (addr, _, same, (p, step)) = lock-inv key prefix e i n {l = l} {o = o} g h in
      let new = new_lock key prefix addr i in
      rw (step, same)
        (get_object-put_object B L J key (with_lock o new) prefix o.secret (true ∷ []) i.message_id
          n (subst (λ (x : Lock). ReadsBack J.objects (with_lock o x)) same back) p)

  -- An Unlock that succeeds after a Lock that succeeded restores the object, if the new lock's id was
  -- not among its locks and both objects survive their encoding.
  pub unlock-lock :
      (key prefix id : Bytes) (e f : List Bool) (i : LockInput) (n : Node B) {l : Lock}
      {o : KvObject} {u : Unit {0}}
      → get_object B J key prefix n ≡ ret o
      → find_lock i.lock_id o.locks ≡ none
      → ReadsBack J.objects (with_lock o l)
      → ReadsBack J.objects o
      → (lock B J key prefix e i n).0 ≡ ret l
      → (unlock B J l f id (lock B J key prefix e i n).1).0 ≡ ret u
      → get_object B J key prefix (unlock B J l f id (lock B J key prefix e i n).1).1 ≡ ret o
  unlock-lock key prefix id e f i n {l} {o} g fresh back_new back h r =
      let (addr, a, same, _) = lock-inv key prefix e i n g h in
      let m = (lock B J key prefix e i n).1 in
      let k : l.key ≡ key = unfold new_lock in ap (λ (x : Lock). x.key) same in
      let q : l.prefix ≡ prefix = unfold new_lock in ap (λ (x : Lock). x.prefix) same in
      let d : l.lock_id ≡ i.lock_id = unfold new_lock in ap (λ (x : Lock). x.lock_id) same in
      let got : get_object B J key prefix m ≡ ret (with_lock o l) =
        get_object-lock key prefix e i n {l = l} {o = o} g back_new h in
      let found : find_lock l.lock_id (o.locks ++ l ∷ []) ≡ some (length o.locks) =
        find_lock-append l.lock_id o.locks l (rw d fresh) (eqb_refl l.lock_id) in
      let done : unlock B J l f id m ≡ put_object B J l.key o l.prefix o.secret (true ∷ []) id m =
        unlock-put l f id m {o = with_lock o l} (at_lock m (sym k) (sym q) got)
          (rw found (remove_at-append o.locks l)) in
      let put = put_object B J l.key o l.prefix o.secret (true ∷ []) id m in
      rw done (
        at_lock put.1 k q (
          get_object-put_object B L J l.key o l.prefix o.secret (true ∷ []) id m back
            (rw done at r)))

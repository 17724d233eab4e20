-- ===== src/Cluster/Start/Laws.antt =====
-- What the loop of Start keeps.
use cave.Base.{
  suc, ◌≤◌, ◌≡◌, refl, sym, subst, ◌∙◌, inl, inr, Bool, true, false, not, ◌&&◌, Option, none, some,
  arith, Outcome, ret, fail, panic, Bool-cases, Option-cases, if◌then◌else◌,
}
use cave.Types.{Message, Codec}
use cave.Cluster.{Cluster}
use cave.Cluster.Sync.{Network}
use cave.Cluster.Start.{
  Loop, Round, discover, signal, after_sync, after_request, join, count, settle, round, enter,
  Reach, here, next, rounds, synced,
}

some-eq : {A : Type 0} {a b : A} → some a ≡ some b → a ≡ b
some-eq e = cc

discover-index : (x : Round) (l : Loop) → l.index ≤ 60 → suc (discover x l).index ≤ 60
unfolding discover
discover-index x l h = ground arith

discover-first : (x : Round) (l : Loop) → (discover x l).first_node ≡ l.first_node
unfolding discover
discover-first x l = ground arith

discover-startup : (x : Round) (l : Loop) → (discover x l).startup ≡ l.startup
unfolding discover
discover-startup x l = ground arith

discover-waits : (x : Round) (l : Loop) → (discover x l).main_waits ≡ l.main_waits
unfolding discover
discover-waits x l = ground arith

first-enter : (c : Cluster) → (enter true c).first_node ≡ true
unfolding enter
first-enter c = refl

startup-enter : (c : Cluster) → (enter true c).startup ≡ true
unfolding enter
startup-enter c = refl

signal-inv :
    (l : Loop) {m : Loop}
    → signal l ≡ some m
    → (m ≡ record l { main_waits = false }) × (l.main_waits ≡ true)
unfolding signal
signal-inv l {m} e = elim (Bool-cases l.main_waits) [
  | inl w ↦ (sym (some-eq (rw w at e)), w)
  | inr w ↦ absurd (cc (rw w at e))
]

module _ (messages : Codec Message) (net : Network) where
  after_sync-index :
      (l : Loop) (r : Option (Outcome (Unit {0}) × Cluster)) {m : Loop}
      → suc l.index ≤ 60
      → after_sync messages net l r ≡ some m
      → m.index ≤ 60
  unfolding after_sync
  after_sync-index l none h e = absurd (cc)
  after_sync-index l (some (ret u, c)) {m} h e = subst (λ (z : Loop). z.index ≤ 60) (some-eq e) h
  after_sync-index l (some (fail x, c)) {m} h e =
      subst (λ (z : Loop). z.index ≤ 60) (some-eq e) (omega arith)
  after_sync-index l (some (panic, c)) h e = absurd (cc)

  after_request-index :
      (x : Round) (l : Loop) (r : Outcome (Unit {0}) × Cluster) {m : Loop}
      → suc l.index ≤ 60
      → after_request messages net x l r ≡ some m
      → m.index ≤ 60
  unfolding after_request
  after_request-index x l (ret u, c) h e = after_sync-index l _ h e
  after_request-index x l (fail y, c) h e = after_sync-index l _ h e
  after_request-index x l (panic, c) h e = absurd (cc)

  count-none : count messages net none ≡ none
  unfolding count
  count-none = refl

  count-index :
      (o : Option Loop) {l m : Loop}
      → o ≡ some l
      → suc l.index ≤ 60
      → count messages net o ≡ some m
      → m.index ≤ 60
  unfolding count
  count-index none o h e = absurd (cc)
  count-index (some k) o h e =
      subst (λ (z : Loop). z.index ≤ 60) (some-eq e)
        (subst (λ (z : Loop). suc z.index ≤ 60) (sym (some-eq o)) h)

  settle-index :
      (b : Bool) (l : Loop) {m : Loop}
      → suc l.index ≤ 60
      → settle messages net b l ≡ some m
      → m.index ≤ 60
  unfolding settle
  settle-index false l h e = count-index (some l) refl h e
  settle-index true l h e =
      let l' : Loop = record l { cluster = record l.cluster { gen_rsa = true } } in
      elim (Option-cases (signal l')) [
        | inl none' ↦ absurd (cc (count-none, rw none' at e))
        | inr (k, some') ↦
            let (same, _) = signal-inv l' some' in
            count-index (signal l') some' (subst (λ (z : Loop). suc z.index ≤ 60) (sym same) h) e
      ]

  round-index :
      (x : Round) (l : Loop) {m : Loop}
      → l.index ≤ 60
      → round messages net x l ≡ some m
      → m.index ≤ 60
  unfolding round join
  round-index x l h e =
      let l' = discover x l in
      elim (Bool-cases (l'.startup && not l'.first_node)) [
        | inl j ↦ after_request-index x l' _ (discover-index x l h) (rw j at e)
        | inr j ↦ settle-index _ l' (discover-index x l h) (rw j at e)
      ]

  -- The counter of rounds never passes sixty, in whatever way the loop goes on.
  pub index-le :
      {first : Bool} {c : Cluster} {l : Loop} → Reach messages net first c l → l.index ≤ 60
  unfolding enter
  index-le here = omega arith
  index-le (next r (rounds x e)) = round-index x _ (index-le r) e
  index-le (next {l} r (synced e)) =
      let (same, _) = signal-inv l e in subst (λ (z : Loop). z.index ≤ 60) (sym same) (index-le r)

  settle-stuck : (l : Loop) → l.main_waits ≡ false → settle messages net true l ≡ none
  unfolding settle signal count
  settle-stuck l w = rw w

  settle-first :
      (l : Loop) {m : Loop}
      → settle messages net true l ≡ some m
      → (m.main_waits ≡ false) × (m.first_node ≡ l.first_node) × (m.startup ≡ l.startup)
  unfolding settle signal count
  settle-first l e = ground arith

  branch :
      (x : Round) (a b : Bool) (l : Loop)
      → a ≡ true
      → b ≡ true
      → (if a && not b then join messages net x l else settle messages net (a && b) l)
        ≡ settle messages net true l
  branch x true true l e f = refl
  branch x true false l e f = absurd (cc)
  branch x false b l e f = absurd (cc)

  -- A round of the first node in its startup signals.
  round-first :
      (x : Round) (l : Loop)
      → l.first_node ≡ true
      → l.startup ≡ true
      → round messages net x l ≡ settle messages net true (discover x l)
  unfolding round
  round-first x l f u =
      branch x (discover x l).startup (discover x l).first_node (discover x l)
        (discover-startup x l ∙ u) (discover-first x l ∙ f)

  -- The first node of a cluster gets no further than one round: in its second it signals main, which
  -- waits no more, for ever, so that it never discovers a peer again.
  pub round-stuck :
      (x y : Round) (c : Cluster) {l : Loop}
      → round messages net x (enter true c) ≡ some l
      → round messages net y l ≡ none
  round-stuck x y c {l} e =
      let l' = discover x (enter true c) in
      let (waits, first, startup) =
        settle-first l'
          (sym (round-first x (enter true c) (first-enter c) (startup-enter c)) ∙ e) in
      let f = first ∙ discover-first x (enter true c) ∙ first-enter c in
      let u = startup ∙ discover-startup x (enter true c) ∙ startup-enter c in
      round-first y l f u ∙ settle-stuck (discover y l) (discover-waits y l ∙ waits)

-- ===== src/Api/Query/Laws.antt =====
-- What multiQueryHandler answers to queries that only read.
use mathlib.Core.List.{Perm}
use mathlib.Core.List.Perm
use cave.Base.{◌≡◌, ap, List, Outcome, ret}
use cave.Bolt.{Bolt}

pub pair-fst : {A S : Type 0} (x : Outcome A × S) {a : A} {s : S} → x ≡ (ret a, s) → x.0 ≡ ret a
pair-fst x e = ap (λ (y : Outcome _ × _). y.0) e

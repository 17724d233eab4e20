-- ===== src/Plugins/Gauges/Counts.antt =====
-- What the gauges of the plugin processes count.
use cave.Base.{
  ℕ, suc, ◌+◌, ◌≡◌, refl, ap, ◌∙◌, inl, inr, Option, none, some, List, [], ◌∷◌, ◌++◌, Bytes,
  path_eqb, path_eqb_iff, path_eqb_refl, if◌then◌else◌, eqb, Dict, lookup, length, arith,
  Bool-cases,
}
use cave.Gauges.{set_value, value_of, value_of-set_value}
use cave.Plugins.Gauges.{
  Process, Metric, Gauges, Tally, count_process, count_processes, count_types, labels_of,
  record_call, drain, tick, format_bool,
}

-- The number of processes of all types.
abbrev pub sizes : Dict (Dict Process) → ℕ
sizes [] = 0
sizes ((t, v) ∷ procs) = length v + sizes procs

count_process-count :
    (i : Process) (y : Tally)
    → ((count_process i y).count ≡ y.count)
      × ((count_process i y).by_type ≡ y.by_type)
      × ((count_process i y).running + (count_process i y).stopped ≡ suc (y.running + y.stopped))
count_process-count i y = elim (Bool-cases i.running) [
  | inl e ↦ rw e (refl, refl, omega arith)
  | inr e ↦ rw e (refl, refl, omega arith)
]

count_processes-count :
    (t : Bytes) (v : Dict Process) (y : Tally)
    → ((count_processes t v y).count ≡ y.count)
      × ((count_processes t v y).by_type ≡ y.by_type)
      × ((count_processes t v y).running + (count_processes t v y).stopped
          ≡ y.running + y.stopped + length v)
unfolding count_processes
count_processes-count t [] y = (refl, refl, omega arith)
count_processes-count t ((n, i) ∷ v) y =
    let start : Tally = record y {
      details = set_value (n ∷ t ∷ i.exe_path ∷ format_bool i.running ∷ []) 1 y.details;
    } in
    let (c, b, r) = count_processes-count t v (count_process i start) in
    let (c', b', r') = count_process-count i start in (c ∙ c', b ∙ b', omega (arith, r, r'))

count_types-count :
    (procs : Dict (Dict Process)) (y : Tally)
    → ((count_types procs y).count ≡ y.count + sizes procs)
      × ((count_types procs y).running + (count_types procs y).stopped
          ≡ y.running + y.stopped + sizes procs)
unfolding count_types
count_types-count [] y = (omega arith, omega arith)
count_types-count ((t, v) ∷ procs) y =
    let count = y.count + length v in
    let start : Tally = record y { count = count; by_type = set_value (t ∷ []) count y.by_type } in
    let (c, _, r) = count_processes-count t v start in
    let (c', r') = count_types-count procs (count_processes t v start) in
    (omega (arith, c, c'), omega (arith, r, r'))

-- The gauge of a type is not set by the turns of other types.
count_types-other :
    (procs : Dict (Dict Process)) (t : Bytes) (y : Tally)
    → lookup t procs ≡ none
    → value_of (t ∷ []) (count_types procs y).by_type ≡ value_of (t ∷ []) y.by_type
unfolding count_types lookup path_eqb
count_types-other [] t y h = refl
count_types-other ((j, v) ∷ procs) t y h = elim (Bool-cases (eqb j t)) [
  | inl e ↦ absurd (cc (rw e at h))
  | inr e ↦
      let count = y.count + length v in
      let start : Tally = record y {
        count = count;
        by_type = set_value (j ∷ []) count y.by_type;
      } in
      let (_, b, _) = count_processes-count j v start in
      count_types-other procs t (count_processes j v start) (rw e at h)
      ∙ ap (value_of (t ∷ [])) b
      ∙ value_of-set_value (j ∷ []) (t ∷ []) count y.by_type
      ∙ rw e refl
]

count_types-by_type :
    (before : Dict (Dict Process)) (t : Bytes) (v : Dict Process) (after : Dict (Dict Process))
    (y : Tally)
    → lookup t after ≡ none
    → value_of (t ∷ []) (count_types (before ++ (t, v) ∷ after) y).by_type
      ≡ y.count + sizes before + length v
unfolding count_types
count_types-by_type [] t v after y h =
    let count = y.count + length v in
    let start : Tally = record y { count = count; by_type = set_value (t ∷ []) count y.by_type } in
    let (_, b, _) = count_processes-count t v start in
    count_types-other after t (count_processes t v start) h
    ∙ ap (value_of (t ∷ [])) b
    ∙ value_of-set_value (t ∷ []) (t ∷ []) count y.by_type
    ∙ rw (path_eqb_refl (t ∷ [])) (omega arith)
count_types-by_type ((j, w) ∷ before) t v after y h =
    let count = y.count + length w in
    let start : Tally = record y { count = count; by_type = set_value (j ∷ []) count y.by_type } in
    let (c, _, _) = count_processes-count j w start in
    omega (arith, c, count_types-by_type before t v after (count_processes j w start) h)

record_call-counts :
    (o : Option (List Bytes)) (m : Metric) (g : Gauges)
    → ((record_call o m g).total ≡ g.total)
      × ((record_call o m g).running ≡ g.running)
      × ((record_call o m g).stopped ≡ g.stopped)
      × ((record_call o m g).by_type ≡ g.by_type)
record_call-counts none m g = (refl, refl, refl, refl)
record_call-counts (some l) m g = (refl, refl, refl, refl)

drain-counts :
    (ms : List Metric) (g : Gauges)
    → ((drain ms g).total ≡ g.total)
      × ((drain ms g).running ≡ g.running)
      × ((drain ms g).stopped ≡ g.stopped)
      × ((drain ms g).by_type ≡ g.by_type)
unfolding drain
drain-counts [] g = (refl, refl, refl, refl)
drain-counts (m ∷ ms) g =
    let (c, r, s, b) = drain-counts ms (record_call (labels_of m) m g) in
    let (c', r', s', b') = record_call-counts (labels_of m) m g in (c ∙ c', r ∙ r', s ∙ s', b ∙ b')

-- After a tick the total is the number of the manager's processes, and the running and the stopped
-- ones together are as many; but the gauge of a type has the number of its processes and of those of
-- all types that the range over the map yields before it, each type being yielded once.
pub tick-counts :
    (before : Dict (Dict Process)) (t : Bytes) (v : Dict Process) (after : Dict (Dict Process))
    (ms : List Metric) (g : Gauges)
    → lookup t after ≡ none
    → let g' = tick (before ++ (t, v) ∷ after) ms g in
      (g'.total ≡ sizes (before ++ (t, v) ∷ after))
      × (g'.running + g'.stopped ≡ g'.total)
      × (value_of (t ∷ []) g'.by_type ≡ sizes before + length v)
unfolding tick
tick-counts before t v after ms g h =
    let procs = before ++ (t, v) ∷ after in
    let start : Tally = record {
      count = 0;
      running = 0;
      stopped = 0;
      by_type = g.by_type;
      details = g.details;
    } in
    let y = count_types procs start in
    let (c, r) = count_types-count procs start in
    let (e, f, k, b) = drain-counts ms (record g {
      by_type = y.by_type;
      details = y.details;
      total = y.count;
      running = y.running;
      stopped = y.stopped;
    }) in
    (
      omega (arith, e, c),
      omega (arith, e, f, k, c, r),
      ap (value_of (t ∷ [])) b ∙ omega (arith, count_types-by_type before t v after start h),
    )

-- 1 for the labels of a measurement, 0 for others.
abbrev pub counted : List Bytes → Option (List Bytes) → ℕ
counted l none = 0
counted l (some k) = if path_eqb k l then 1 else 0

-- How many measurements have these labels.
abbrev pub with_labels : List Bytes → List Metric → ℕ
with_labels l [] = 0
with_labels l (m ∷ ms) = counted l (labels_of m) + with_labels l ms

record_call-count :
    (o : Option (List Bytes)) (l : List Bytes) (m : Metric) (g : Gauges)
    → value_of l (record_call o m g).call_count ≡ value_of l g.call_count + counted l o
record_call-count none l m g = omega arith
record_call-count (some k) l m g = elim (Bool-cases (path_eqb k l)) [
  | inl e ↦
      let same : k ≡ l = (path_eqb_iff k l).0 e in
      value_of-set_value k l (suc (value_of k g.call_count)) g.call_count
      ∙ rw (e, same) (omega arith)
  | inr e ↦ value_of-set_value k l (suc (value_of k g.call_count)) g.call_count ∙ rw e (omega arith)
]

-- The count of calls by labels grows by the number of measurements in the channel with these labels,
-- where a measurement whose URN has not three parts counts for none.
pub value_of-drain :
    (ms : List Metric) (l : List Bytes) (g : Gauges)
    → value_of l (drain ms g).call_count ≡ value_of l g.call_count + with_labels l ms
unfolding drain
value_of-drain [] l g = omega arith
value_of-drain (m ∷ ms) l g = omega (
  arith,
  value_of-drain ms l (record_call (labels_of m) m g),
  record_call-count (labels_of m) l m g,
)

-- ===== src/Plugins/Gauges.antt =====
-- plugins.go doMetrics: the gauges of a node's plugin processes, one tick of the loop.
pub mod Counts
use cave.Base.{
  ℕ, suc, ◌+◌, Bool, true, false, Option, none, some, List, [], ◌∷◌, Bytes, codes, path_eqb,
  if◌then◌else◌, Dict, length,
}
use cave.Path.{split}
use cave.Gauges.{Series, set_value, increase}

-- What doMetrics reads of a process of the manager libsubrpc.
pub record Process : Type 0 where
  pub exe_path : Bytes
  pub running : Bool

-- A measurement of a call, in the manager's channel; the time is in milliseconds.
pub record Metric : Type 0 where
  pub urn : Bytes
  pub error : Bool
  pub call_time : ℕ

pub record Gauges : Type 0 where
  pub by_type : Series
  pub details : Series
  pub total : ℕ
  pub running : ℕ
  pub stopped : ℕ
  pub call_time : Series
  pub call_count : Series

-- The local variables of a tick, and the gauges that the loops set.
pub record Tally : Type 0 where
  pub count : ℕ
  pub running : ℕ
  pub stopped : ℕ
  pub by_type : Series
  pub details : Series

-- strconv.FormatBool
abbrev pub format_bool : Bool → Bytes
format_bool true = codes "true"
format_bool false = codes "false"

abbrev pub count_process : Process → Tally → Tally
count_process i y =
    if i.running then record y { running = suc y.running } else record y { stopped = suc y.stopped }

-- The loop over the processes of one type.
unfoldable pub count_processes : Bytes → Dict Process → Tally → Tally
count_processes t [] y = y
count_processes t ((n, i) ∷ v) y = count_processes t v (
    count_process i (record y {
      details = set_value (n ∷ t ∷ i.exe_path ∷ format_bool i.running ∷ []) 1 y.details;
    }))

-- The loop over the types, in the order in which `range` yields them; the gauge of a type is set to the
-- count of the whole loop so far.
unfoldable pub count_types : Dict (Dict Process) → Tally → Tally
unfolding count_processes
count_types [] y = y
count_types ((t, v) ∷ procs) y =
    let count = y.count + length v in
    count_types procs (
      count_processes t v
        (record y { count = count; by_type = set_value (t ∷ []) count y.by_type }))

-- The labels of a measurement, if its URN has three parts.
unfoldable pub labels_of : Metric → Option (List Bytes)
labels_of m = elim (split 58 m.urn) [
  | [] ↦ none
  | a ∷ rest ↦ elim rest [
    | [] ↦ none
    | b ∷ rest' ↦ elim rest' [
      | [] ↦ none
      | c ∷ more ↦ elim more [ [] ↦ some (a ∷ b ∷ c ∷ format_bool m.error ∷ []) | _ ∷ _ ↦ none ]
    ]
  ]
]

-- One measurement; `none` is the `continue`.
abbrev pub record_call : Option (List Bytes) → Metric → Gauges → Gauges
record_call none m g = g
record_call (some l) m g = record g {
  call_time = set_value l m.call_time g.call_time;
  call_count = increase l g.call_count;
}

-- The loop over the measurements in the channel.
unfoldable pub drain : List Metric → Gauges → Gauges
unfolding labels_of
drain [] g = g
drain (m ∷ ms) g = drain ms (record_call (labels_of m) m g)

unfoldable pub tick : Dict (Dict Process) → List Metric → Gauges → Gauges
unfolding count_types drain
tick procs ms g =
    let y =
      count_types procs (record {
        count = 0;
        running = 0;
        stopped = 0;
        by_type = g.by_type;
        details = g.details;
      }) in
    drain ms (record g {
      by_type = y.by_type;
      details = y.details;
      total = y.count;
      running = y.running;
      stopped = y.stopped;
    })

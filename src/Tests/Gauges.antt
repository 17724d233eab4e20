-- ===== src/Tests/Gauges.antt =====
-- The theorem on the gauges of plugins at three processes of two types.
use cave.Base.{◌≡◌, refl, ◌+◌, true, false, [], ◌∷◌, codes, lookup, Dict}
use cave.Gauges.{value_of}
use cave.Plugins.Gauges.{Process, Metric, Gauges, tick}
use cave.Plugins.Gauges.Counts.{tick-counts}

abbrev process : Process
process = record { exe_path = codes "x"; running = true }

abbrev ended : Process
ended = record { exe_path = codes "y"; running = false }

abbrev auth : Dict Process
auth = (codes "a", process) ∷ (codes "b", ended) ∷ []

abbrev store : Dict Process
store = (codes "c", process) ∷ []

abbrev none_yet : Gauges
none_yet = record {
  by_type = [];
  details = [];
  total = 0;
  running = 0;
  stopped = 0;
  call_time = [];
  call_count = [];
}

abbrev call : Metric
call = record { urn = codes "auth:a:f"; error = false; call_time = 3 }

tick-counts_example :
    let g = tick ((codes "auth", auth) ∷ (codes "store", store) ∷ []) (call ∷ []) none_yet in
    (g.total ≡ 3)
    × (g.running + g.stopped ≡ g.total)
    × (value_of (codes "store" ∷ []) g.by_type ≡ 2 + 1)
unfolding lookup
tick-counts_example =
    tick-counts ((codes "auth", auth) ∷ []) (codes "store") store [] (call ∷ []) none_yet refl

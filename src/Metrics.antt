-- ===== src/Metrics.antt =====
-- metrics.go mainMetrics: the gauges of the process, one round of the loop, as the calls of Set it makes.
-- What the runtime and gopsutil give is the input of the round. The text of the dashboard is left out.
pub mod Nil
use cave.Base.{
  ℕ, ◌+◌, ◌-◌, ◌*◌, ◌/◌, ◌^◌, Bool, true, false, Option, none, some, List, [], ◌∷◌, ◌++◌, Bytes,
  codes, Outcome, ret, fail, panic, ◌>>?◌, if◌then◌else◌, ltb,
}

-- runtime.ReadMemStats, as far as the loop reads it, with GOMAXPROCS and NumGoroutine.
pub record Runtime : Type 0 where
  pub num_cpu : ℕ
  pub num_goroutine : ℕ
  pub lookups : ℕ
  pub mallocs : ℕ
  pub frees : ℕ
  pub heap_alloc : ℕ
  pub heap_sys : ℕ
  pub heap_idle : ℕ
  pub heap_inuse : ℕ
  pub heap_released : ℕ
  pub heap_objects : ℕ
  pub num_gc : ℕ
  pub pause_total_ns : ℕ

-- Two counters of gopsutil: bytes read and written, sent and received, or switches of the context.
abbrev pub Pair : Type 0
Pair = ℕ × ℕ

-- What gopsutil gives of the process. Its errors are dropped by `check`; a pointer or a slice that comes
-- with an error may be nil, which is `none`.
pub record Process (V : Type 0) : Type 0 where
  pub cpu_percent : V
  pub children : ℕ
  pub connections : ℕ
  pub create_time_ms : ℕ
  pub io_counters : Option Pair
  pub memory_percent : V
  pub net_io_counters : Option Pair
  pub ctx_switches : Option Pair
  pub num_fds : ℕ
  pub num_threads : ℕ
  pub open_files : ℕ
  pub load_avg : Option (V × V × V)
  -- time.Now().Unix()
  pub now_s : ℕ

-- A value that is converted to float64, the difference of two numbers, or one that is a float64.
pub data Value (V : Type 0) : Type 0 where
  whole : ℕ → Value V
  difference : ℕ → ℕ → Value V
  float : V → Value V

-- m[name].WithLabelValues(label).Set(value), without a label for a plain gauge
pub record Call (V : Type 0) : Type 0 where
  pub name : Bytes
  pub label : Option Bytes
  pub value : Value V

-- A field of the nil pointer, and an element of the nil slice, panic.
abbrev pub field_of : {A : Type 0} → Option A → Outcome A
field_of none = panic
field_of (some a) = ret a

module _ {V : Type 0} where
  abbrev set : Bytes → Value V → Call V
  set name v = record { name = name; label = none; value = v }

  abbrev set_at : Bytes → Bytes → Value V → Call V
  set_at name l v = record { name = name; label = some l; value = v }

  abbrev pub runtime_calls : Runtime → List (Call V)
  runtime_calls r =
      set (codes "numcpu") (whole r.num_cpu)
      ∷ set (codes "numgo") (whole r.num_goroutine)
      ∷ set (codes "lookups") (whole r.lookups)
      ∷ set (codes "mallocs") (whole r.mallocs)
      ∷ set (codes "frees") (whole r.frees)
      ∷ set (codes "heap_alloc") (whole r.heap_alloc)
      ∷ set (codes "heap_total") (whole r.heap_sys)
      ∷ set (codes "heap_idle") (whole r.heap_idle)
      ∷ set (codes "heap_inuse") (whole r.heap_inuse)
      ∷ set (codes "heap_released") (whole r.heap_released)
      ∷ set (codes "heap_objects") (whole r.heap_objects)
      ∷ set (codes "gc_num") (whole r.num_gc)
      ∷ set (codes "gc_pause") (whole (r.pause_total_ns / 1000000))
      ∷ []

  abbrev pub process_calls : Process V → List (Call V)
  process_calls p =
      set (codes "proc_cpu") (float p.cpu_percent)
      ∷ set (codes "proc_children") (whole p.children)
      ∷ set (codes "net_conns") (whole p.connections)
      ∷ set (codes "proc_uptime") (difference p.now_s (p.create_time_ms / 1000))
      ∷ []

  abbrev pub pair_calls : Bytes → Bytes → Bytes → Pair → List (Call V)
  pair_calls name a b (x, y) = set_at name a (whole x) ∷ set_at name b (whole y) ∷ []

  abbrev pub count_calls : Process V → List (Call V)
  count_calls p =
      set (codes "proc_fd") (whole p.num_fds)
      ∷ set (codes "proc_threads") (whole p.num_threads)
      ∷ set (codes "proc_files") (whole p.open_files)
      ∷ []

  abbrev pub load_calls : V × V × V → List (Call V)
  load_calls (a, b, c) =
      set_at (codes "load") (codes "1") (float a)
      ∷ set_at (codes "load") (codes "5") (float b)
      ∷ set_at (codes "load") (codes "15") (float c)
      ∷ []

  -- The calls from the process on, once the counters and the load are there.
  abbrev pub calls_of : Process V → Pair → Pair → Pair → V × V × V → List (Call V)
  calls_of p io net ctx ld =
      process_calls p
      ++ pair_calls (codes "proc_io") (codes "read_bytes") (codes "write_bytes") io
      ++ set (codes "proc_mempct") (float p.memory_percent)
        ∷ pair_calls (codes "proc_net_io") (codes "tx_bytes") (codes "rx_bytes") net
      ++ pair_calls (codes "proc_ctx") (codes "voluntary") (codes "involuntary") ctx
      ++ count_calls p
      ++ load_calls ld

  unfoldable pub process_round : Process V → Outcome (List (Call V))
  process_round p = field_of p.io_counters >>? λ io. field_of p.net_io_counters >>? λ net.
      field_of p.ctx_switches >>? λ ctx.
      field_of p.load_avg >>? λ ld. ret (calls_of p io net ctx ld)

  -- A round; without the process, for which NewProcess gave an error, it goes on with the next at once.
  -- A panic ends the program.
  unfoldable pub metrics_round : Runtime → Option (Process V) → Outcome (List (Call V))
  unfolding process_round
  metrics_round r none = ret (runtime_calls r)
  metrics_round r (some p) = process_round p >>? λ cs. ret (runtime_calls r ++ cs)

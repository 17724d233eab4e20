-- ===== src/Kv/Gauges.antt =====
-- kv.go doMetrics: the gauges of the engine after an operation. The statistics are those of bbolt.
use cave.Base.{ℕ, ◌-◌, ◌/◌, [], ◌∷◌, Bytes, Outcome, ret, fail, panic}
use cave.Types.{Time}
use cave.Gauges.{Series, set_value}

-- bbolt's Stats, as far as doMetrics reads it.
pub record Stats : Type 0 where
  pub free_pages : ℕ
  pub pending_pages : ℕ
  pub free_alloc : ℕ
  pub freelist_inuse : ℕ
  pub transactions : ℕ
  pub open_transactions : ℕ

pub record KvGauges : Type 0 where
  pub transaction_time : Series
  pub pagefree : ℕ
  pub pagepending : ℕ
  pub pagealloc : ℕ
  pub pageuse : ℕ
  pub tx_tot : ℕ
  pub tx_open : ℕ
  pub dbsize : ℕ

-- time.Now().Sub(start).Milliseconds(); the clock of a process does not go back.
abbrev pub millis_since : Time → Time → ℕ
millis_since start now = (now - start) / 1000000

-- The gauges before the last.
unfoldable pub stat_gauges : Bytes → Time → Time → Stats → KvGauges → KvGauges
stat_gauges tx start now stats g = record g {
  transaction_time = set_value (tx ∷ []) (millis_since start now) g.transaction_time;
  pagefree = stats.free_pages;
  pagepending = stats.pending_pages;
  pagealloc = stats.free_alloc;
  pageuse = stats.freelist_inuse;
  tx_tot = stats.transactions;
  tx_open = stats.open_transactions;
}

-- The goroutine of doMetrics. `size` is what os.Stat gives of the database's file: its error is dropped,
-- and Size of the nil result panics, which ends the program.
unfoldable pub do_metrics : Bytes → Time → Time → Stats → Outcome ℕ → KvGauges → Outcome KvGauges
unfolding stat_gauges
do_metrics tx start now stats (ret n) g =
    ret (record (stat_gauges tx start now stats g) { dbsize = n })
do_metrics tx start now stats (fail e) g = panic
do_metrics tx start now stats panic g = panic

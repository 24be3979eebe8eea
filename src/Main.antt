-- ===== src/Main.antt =====
-- The collection of statistics (main.go), over what it needs of the cluster and of the back end.
pub mod Cluster
pub mod Duration
pub mod Loop
pub mod Writer
pub mod Statsloop
pub mod Run
pub mod Reload
pub mod Prometheus
pub mod Backends
use goppstats.Prelude.{ℕ, ◌^◌, String, List, Bool, Option}
use goppstats.Prelude.Int.{ℤ}
use goppstats.Prelude.Result.{Result, Error}
use goppstats.Api.Types.{DsInfo, DsInfoEntry, PpStatResult}

-- Durations and times are in nanoseconds.
abbrev pub second : ℕ
second = 10 ^ 9

-- The cluster's queries, the back end, the clock and the context, over a state of theirs.
pub record Collector (Float64 V : Type 0) : Type 0 where
  pub get_data_set_info : V → Result DsInfo × V
  pub get_pp_stats : String → V → Result (List (PpStatResult Float64)) × V
  -- `DBWriter`
  pub update_datasets : DsInfo → V → V
  pub write_pp_stats : DsInfoEntry → List (PpStatResult Float64) → V → Option Error × V
  -- `time.Now()`
  pub now : V → ℤ
  -- `select` on `time.After(d)` and `ctx.Done()`: whether the time has passed first
  pub wait : ℤ → V → Bool × V

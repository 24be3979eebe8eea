-- ===== src/Main/Statsloop/Ends.antt =====
-- That `statsloop` ends.
use goppstats.Prelude.{ℕ, suc, ◌*◌, ◌≤◌, ◌<◌, String, Option, ◌≡◌, arith, inl, inr}
use goppstats.Prelude.Int.{pos}
use goppstats.Prelude.Result.{Result, Result-cases}
use goppstats.Api.Client.{Cluster, Net}
use goppstats.Api.Client.Session.{rounds}
use goppstats.Config.{GlobalConfig, ClusterConf}
use goppstats.Main.{second, Collector}
use goppstats.Main.Duration.{retry_interval}
use goppstats.Main.Duration.Bounds.{retry_interval-prolonged}
use goppstats.Main.Loop.{stopped}
use goppstats.Main.Loop.Clocked.{IsCancelledAt, IsLong}
use goppstats.Main.Loop.Cancelled.{collect_rounds-ends}
use goppstats.Main.Writer.{Writer, start_collection}
use goppstats.Main.Statsloop.{statsloop}

module _ {Float64 W Sink V : Type 0} (net : Net Float64 W) (quoted : String → String)
    (init : Writer → Cluster → W → Result Sink × W) (io : Collector Float64 V)
    (enter : Cluster → Sink → W → V) (leave : V → W) where
  -- `statsloop` ends once its context is cancelled, if the interval of its writes is at least a second
  -- and no more than 9223372036: if the clock does not go back, a wait that passes takes its time, and
  -- after a deadline the queries of the cluster fail, as canceled or with the wait after them, then as
  -- many rounds of each of its loops as seconds lead up to the deadline, and one, are enough.
  pub statsloop-stopped :
      (clock : V → ℕ) (deadline fuel looks i : ℕ) (lookup_env : String → Option String)
      (gc : GlobalConfig) (cc : ClusterConf) (w : W)
      → IsCancelledAt io clock deadline
      → gc.processor_retry_intvl ≡ pos i
      → 1 ≤ i
      → i ≤ 9223372036
      → deadline < fuel * second
      → deadline < looks * second
      → (statsloop net quoted init io enter leave (suc fuel) (suc looks) lookup_env gc cc w).0
        ≡ stopped
  unfolding statsloop
  statsloop-stopped clock deadline fuel looks i lookup_env gc cc w laws e l h b d =
      let (r, w₁) = start_collection net quoted init lookup_env gc cc w in
      elim (Result-cases r) [
        | inr (x, q) ↦ ground (arith, q)
        | inl ((c, sink), q) ↦
            let long : IsLong (retry_interval gc.processor_retry_intvl) =
              (second * i, rw e ((retry_interval-prolonged i 0 h).0), omega arith, omega arith) in
            let v = enter c sink w₁ in
            let ends =
              collect_rounds-ends io clock deadline laws fuel (rounds gc.processor_max_retries)
                (retry_interval gc.processor_retry_intvl) long looks v (omega arith)
                (omega arith) in
            ground (arith, q, ends)
      ]

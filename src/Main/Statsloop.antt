-- ===== src/Main/Statsloop.antt =====
-- `statsloop` as a whole: the client and the sink of a cluster, and the loop over both (main.go).
pub mod Ends
use goppstats.Prelude.{ℕ, String, Option}
use goppstats.Prelude.Result.{Result, ok, err}
use goppstats.Api.Client.{Cluster, Net}
use goppstats.Api.Client.Session.{rounds}
use goppstats.Config.{GlobalConfig, ClusterConf}
use goppstats.Main.{Collector}
use goppstats.Main.Duration.{retry_interval}
use goppstats.Main.Loop.{Outcome, stopped, collect_rounds}
use goppstats.Main.Writer.{Writer, start_collection}

-- What the loop works on is made of the client, the sink and the host, and the host is left.
module _ {Float64 W Sink V : Type 0} (net : Net Float64 W) (quoted : String → String)
    (init : Writer → Cluster → W → Result Sink × W) (io : Collector Float64 V)
    (enter : Cluster → Sink → W → V) (leave : V → W) where
  unfoldable pub statsloop :
      ℕ → ℕ → (String → Option String) → GlobalConfig → ClusterConf → W → Outcome Unit × W
  unfolding start_collection collect_rounds retry_interval
  statsloop fuel looks lookup_env gc cc w =
      let (r, w₁) = start_collection net quoted init lookup_env gc cc w in
      elim r [
        | err e ↦ (stopped, w₁)
        | ok (c, sink) ↦
            let (o, v) =
              collect_rounds io fuel (rounds gc.processor_max_retries)
                (retry_interval gc.processor_retry_intvl) looks (enter c sink w₁) in
            (o, leave v)
      ]

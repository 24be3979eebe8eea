-- ===== src/Main/Prometheus.antt =====
-- The collection loop with the client of the cluster and the Prometheus sink.
pub mod Kept
pub mod Rounds
use goppstats.Prelude.{ℕ, String, List, [], ◌∷◌, Bool}
use goppstats.Prelude.Int.{ℤ, pos}
use goppstats.Prelude.Result.{Result}
use goppstats.Api.Types.{DsInfo, PpStatResult}
use goppstats.Api.Client.{Cluster, Net}
use goppstats.Api.Client.Queries.{export_api, get_data_set_info, get_pp_stats}
use goppstats.Prometheus.{PrometheusSink}
use goppstats.Prometheus.Datasets.{update_datasets}
use goppstats.Prometheus.Expire.{expire}
use goppstats.Prometheus.Write.{write_pp_stats}
use goppstats.Main.{Collector}

-- The client, the sink, and the host and the network behind them. The sink's pointer to the client is
-- the client.
pub record Collection (Float64 W : Type 0) : Type 0 where
  pub cluster : Cluster
  pub sink : PrometheusSink Float64
  pub host : W

-- What `Collect` leaves of the sink, for scrapes at these times, in order.
unfoldable pub after_scrapes :
    {Float64 : Type 0} → List ℕ → PrometheusSink Float64 → PrometheusSink Float64
after_scrapes [] s = s
after_scrapes (t ∷ later) s = after_scrapes later (expire t s)

-- `now` and `wait` are the clock and the `select` of the loop, in nanoseconds; `scrapes` are the times at
-- which the HTTP server collected during the call that the host has just come out of. A write holds the
-- sink's lock, so the scrapes that come during it are answered after it.
module _ {Float64 W : Type 0} (net : Net Float64 W) (decode_ds_info : String → Result DsInfo)
    (decode_workloads : String → Result (List (PpStatResult Float64))) (now : W → ℕ)
    (wait : ℤ → W → Bool × W) (scrapes : W → List ℕ) where
  abbrev come_out : Cluster → PrometheusSink Float64 → W → Collection Float64 W
  come_out c s w = record { cluster = c; sink = after_scrapes (scrapes w) s; host = w }

  abbrev pub prometheus_collector : Collector Float64 (Collection Float64 W)
  prometheus_collector = record {
    get_data_set_info = λ v.
        let (r, c, w) = get_data_set_info net decode_ds_info decode_workloads v.cluster v.host in
        (r, come_out c v.sink w);
    get_pp_stats = λ name v.
        let (r, c, w) = get_pp_stats net decode_ds_info decode_workloads name v.cluster v.host in
        (r, come_out c v.sink w);
    update_datasets = λ di v. record v { sink = update_datasets di v.sink };
    write_pp_stats = λ ds stats v.
        let (e, s, cw) =
          write_pp_stats (export_api net) (now v.host) ds stats v.sink (v.cluster, v.host) in
        (e, come_out cw.0 s cw.1);
    now = λ v. pos (now v.host);
    wait = λ d v. let (passed, w) = wait d v.host in (passed, come_out v.cluster v.sink w);
  }

-- ===== src/Main/Backends.antt =====
-- The back ends behind `DBWriter` (statssink.go): what `statsloop` calls of the one that `getDBWriter`
-- has chosen, and the loop's collector over it.
pub mod Clocked
pub mod Cancelled
pub mod Ready
use goppstats.Prelude.{ℕ, String, List, Bool, Option}
use goppstats.Prelude.Int.{ℤ, pos}
use goppstats.Prelude.Result.{Result, ok, err, Error}
use goppstats.Api.Types.{DsInfo, DsInfoEntry, PpStatResult}
use goppstats.Api.Client.{Cluster, Net}
use goppstats.Api.Client.Queries.{export_api, get_data_set_info, get_pp_stats}
use goppstats.Config.{TomlConfig, ClusterConf}
use goppstats.Influx.{InfluxSink, PointArgs}
use goppstats.Influx.V1
use goppstats.Influx.V1.{HttpConfig, BatchPointsConfig}
use goppstats.Influx.V2
use goppstats.Prometheus.{PrometheusSink}
use goppstats.Prometheus.Datasets
use goppstats.Prometheus.Server
use goppstats.Prometheus.Write
use goppstats.Main.{Collector}
use goppstats.Main.Prometheus.{after_scrapes}
use goppstats.Main.Writer.{
  Writer, discard_sink, influx_db_sink, influx_db_v2_sink, prometheus_sink, DiscardSink,
  discard_init, discard_update_datasets, discard_write,
}

-- What the back ends call of the client libraries and of the host.
pub record Libraries (Float64 W DbClient DbPoint V2Client WriteApi Point : Type 0) : Type 0 where
  pub lookup_env : String → Option String
  -- influxdb1-client
  pub new_http_client : HttpConfig → Result DbClient
  pub ping : DbClient → W → Result Unit × W
  pub new_batch_points : BatchPointsConfig → Result Unit
  pub new_db_point : PointArgs Float64 → Result DbPoint
  pub write : DbClient → BatchPointsConfig → List DbPoint → W → Result Unit × W
  -- influxdb-client-go
  pub new_client : String → String → V2Client
  pub ping_v2 : V2Client → W → Result Bool × W
  pub write_api : V2Client → String → String → WriteApi
  pub new_point : PointArgs Float64 → Point
  pub write_point : WriteApi → List Point → W → Result Unit × W
  -- client_golang and the sockets
  pub register : W → Result Unit × W
  pub create_listener : String → W → Result Unit × W

-- A back end that is ready: its sink, with what `Init` has kept of its client library.
pub data Sink (Float64 DbClient WriteApi : Type 0) : Type 0 where
  discard : DiscardSink → Sink Float64 DbClient WriteApi
  influx_db : InfluxSink → BatchPointsConfig → DbClient → Sink Float64 DbClient WriteApi
  influx_db_v2 : InfluxSink → WriteApi → Sink Float64 DbClient WriteApi
  prometheus : PrometheusSink Float64 → Sink Float64 DbClient WriteApi

-- Something done to the host, with the client beside it.
abbrev pub beside : {A B W : Type 0} → (W → A × W) → B × W → A × (B × W)
beside f (b, w) = let (a, w') = f w in (a, (b, w'))

module _ {Float64 W DbClient DbPoint V2Client WriteApi Point : Type 0}
    (libs : Libraries Float64 W DbClient DbPoint V2Client WriteApi Point) where
  abbrev pub AnySink : Type 0
  AnySink = Sink Float64 DbClient WriteApi

  -- `ss.Init`, for the configuration of a cluster
  unfoldable pub init : TomlConfig → ClusterConf → Writer → Cluster → W → Result AnySink × W
  unfolding discard_init V1.init V2.init Server.init
  init config cl discard_sink c w = elim (discard_init c) [
    | err e ↦ (err e, w)
    | ok s ↦ (ok (discard s), w)
  ]
  init config cl influx_db_sink c w =
      let (r, w') =
        V1.init libs.new_http_client libs.ping libs.lookup_env c.cluster_name config w in
      elim r [ err e ↦ (err e, w') | ok (s, bp, client) ↦ (ok (influx_db s bp client), w') ]
  init config cl influx_db_v2_sink c w =
      let (r, w') =
        V2.init libs.new_client libs.ping_v2 libs.write_api libs.lookup_env c.cluster_name config
          w in
      elim r [ err e ↦ (err e, w') | ok (s, api) ↦ (ok (influx_db_v2 s api), w') ]
  init config cl prometheus_sink c w =
      let (r, w') =
        Server.init libs.register libs.create_listener {Float64 = Float64} c.cluster_name config cl
          w in
      elim r [ err e ↦ (err e, w') | ok (s, client, serving) ↦ (ok (prometheus s), w') ]

  -- `ss.UpdateDatasets`
  unfoldable pub update_datasets : DsInfo → AnySink → AnySink
  unfolding discard_update_datasets V1.update_datasets V2.update_datasets Datasets.update_datasets
  update_datasets di (discard s) = discard (discard_update_datasets di s)
  update_datasets di (influx_db s bp client) = influx_db (V1.update_datasets di s) bp client
  update_datasets di (influx_db_v2 s api) = influx_db_v2 (V2.update_datasets di s) api
  update_datasets di (prometheus s) = prometheus (Datasets.update_datasets di s)

  -- `ss.WritePPStats`, at a time
  unfoldable pub write_pp_stats :
      Net Float64 W
      → ℕ
      → DsInfoEntry
      → List (PpStatResult Float64)
      → AnySink
      → Cluster × W
      → Option Error × AnySink × (Cluster × W)
  unfolding discard_write V1.write_pp_stats V2.write_pp_stats Write.write_pp_stats
  write_pp_stats net now ds stats (discard s) cw =
      let (e, s') = discard_write ds stats s in (e, discard s', cw)
  write_pp_stats net now ds stats (influx_db s bp client) cw =
      let (e, s', cw') =
        V1.write_pp_stats (export_api net) libs.new_db_point libs.new_batch_points
          (λ config points. beside (libs.write client config points)) bp ds stats s cw in
      (e, influx_db s' bp client, cw')
  write_pp_stats net now ds stats (influx_db_v2 s api) cw =
      let (e, s', cw') =
        V2.write_pp_stats (export_api net) libs.new_point
          (λ points. beside (libs.write_point api points)) ds stats s cw in
      (e, influx_db_v2 s' api, cw')
  write_pp_stats net now ds stats (prometheus s) cw =
      let (e, s', cw') = Write.write_pp_stats (export_api net) now ds stats s cw in
      (e, prometheus s', cw')

-- The client, the back end, and the host and the network behind them.
pub record Collection (Float64 DbClient WriteApi W : Type 0) : Type 0 where
  pub cluster : Cluster
  pub sink : Sink Float64 DbClient WriteApi
  pub host : W

-- Only the Prometheus sink is scraped.
unfoldable pub scraped :
    {Float64 DbClient WriteApi : Type 0}
    → List ℕ
    → Sink Float64 DbClient WriteApi
    → Sink Float64 DbClient WriteApi
unfolding after_scrapes
scraped times (discard s) = discard s
scraped times (influx_db s bp client) = influx_db s bp client
scraped times (influx_db_v2 s api) = influx_db_v2 s api
scraped times (prometheus s) = prometheus (after_scrapes times s)

-- `now` and `wait` are the clock and the `select` of the loop, in nanoseconds; `scrapes` are the times at
-- which the HTTP server collected during the call that the host has just come out of.
module _ {Float64 W DbClient DbPoint V2Client WriteApi Point : Type 0}
    (libs : Libraries Float64 W DbClient DbPoint V2Client WriteApi Point) (net : Net Float64 W)
    (decode_ds_info : String → Result DsInfo)
    (decode_workloads : String → Result (List (PpStatResult Float64))) (now : W → ℕ)
    (wait : ℤ → W → Bool × W) (scrapes : W → List ℕ) where
  abbrev pub collection_of : Cluster → AnySink libs → W → Collection Float64 DbClient WriteApi W
  collection_of c s w = record { cluster = c; sink = s; host = w }

  abbrev come_out : Cluster → AnySink libs → W → Collection Float64 DbClient WriteApi W
  come_out c s w = collection_of c (scraped (scrapes w) s) w

  abbrev pub collector : Collector Float64 (Collection Float64 DbClient WriteApi W)
  collector = record {
    get_data_set_info = λ v.
        let (r, c, w) = get_data_set_info net decode_ds_info decode_workloads v.cluster v.host in
        (r, come_out c v.sink w);
    get_pp_stats = λ name v.
        let (r, c, w) = get_pp_stats net decode_ds_info decode_workloads name v.cluster v.host in
        (r, come_out c v.sink w);
    update_datasets = λ di v. record v { sink = update_datasets libs di v.sink };
    write_pp_stats = λ ds stats v.
        let (e, s, cw) = write_pp_stats libs net (now v.host) ds stats v.sink (v.cluster, v.host) in
        (e, come_out cw.0 s cw.1);
    now = λ v. pos (now v.host);
    wait = λ d v. let (passed, w) = wait d v.host in (passed, come_out v.cluster v.sink w);
  }

-- ===== src/Main/Writer.antt =====
-- The choice of a back end, and what `statsloop` does before its loop.
use Prim.Native.String.{◌++◌}
use goppstats.Prelude.{String, List, Option, none, ◌==◌, string_eq, if◌then◌else◌}
use goppstats.Prelude.Result.{Result, ok, err, Error, message}
use goppstats.Api.Types.{DsInfo, DsInfoEntry, PpStatResult}
use goppstats.Api.Client.{Cluster, Net}
use goppstats.Api.Client.Queries.{connect}
use goppstats.Config.{GlobalConfig, ClusterConf}
use goppstats.Main.Cluster.{new_cluster}

-- The back ends, by the types of their sinks.
pub data Writer : Type 0 where
  discard_sink influx_db_sink influx_db_v2_sink prometheus_sink : Writer

-- `%q` of `fmt` is a parameter.
unfoldable pub get_db_writer : (String → String) → String → Result Writer
get_db_writer quoted sp =
    if sp == "discard"
    then ok discard_sink
    else if sp == "influxdb"
    then ok influx_db_sink
    else if sp == "influxdbv2"
    then ok influx_db_v2_sink
    else if sp == "prometheus"
    then ok prometheus_sink
    else err (message ("unsupported backend plugin " ++ quoted sp))

-- `DiscardSink` keeps the name of its cluster, and drops what it is given.
pub record DiscardSink : Type 0 where
  pub cluster_name : String

unfoldable pub discard_init : Cluster → Result DiscardSink
discard_init cluster = ok (record { cluster_name = cluster.cluster_name })

unfoldable pub discard_update_datasets : DsInfo → DiscardSink → DiscardSink
discard_update_datasets ds s = s

unfoldable pub discard_write :
    {Float64 : Type 0}
    → DsInfoEntry
    → List (PpStatResult Float64)
    → DiscardSink
    → Option Error × DiscardSink
discard_write ds stats s = (none, s)

-- The client that is connected and the sink that is ready, or the error with which the loop is not
-- entered. `Init` of a back end is a parameter, in a state that has the host's.
module _ {Float64 W Sink : Type 0} (net : Net Float64 W) (quoted : String → String)
    (init : Writer → Cluster → W → Result Sink × W) where
  unfoldable pub start_collection :
      (String → Option String) → GlobalConfig → ClusterConf → W → Result (Cluster × Sink) × W
  unfolding get_db_writer
  start_collection lookup_env gc cc w = elim (new_cluster lookup_env gc cc) [
    | err e ↦ (err e, w)
    | ok c ↦
        let (r, c', w₁) = connect net c w in
        elim r [
          | err e ↦ (err e, w₁)
          | ok _ ↦ elim (get_db_writer quoted gc.processor) [
            | err e ↦ (err e, w₁)
            | ok writer ↦
                let (s, w₂) = init writer c' w₁ in
                elim s [ err e ↦ (err e, w₂) | ok sink ↦ (ok (c', sink), w₂) ]
          ]
        ]
  ]

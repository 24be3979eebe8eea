-- ===== src/Influx/V2.antt =====
-- `InfluxDBv2Sink` (influxdbv2.go).
use Prim.Native.String.{◌++◌}
use mathlib.Core.List
use goppstats.Prelude.{
  String, List, [], ◌∷◌, Bool, true, false, Option, none, some, ◌==◌, string_eq, if◌then◌else◌,
}
use goppstats.Prelude.Result.{Result, ok, err, Error, message, wrapped}
use goppstats.Api.Types.{DsInfo, DsInfoEntry, PpStatResult}
use goppstats.Backend.Exports.{new_export_map, ExportApi}
use goppstats.Backend.Tags.{PtTags, tags_for_pp_stat}
use goppstats.Config.{TomlConfig}
use goppstats.Config.Read.{secret_from_env}
use goppstats.Influx.{PointArgs, InfluxSink}
use goppstats.Prelude.Dict.{insert}
use goppstats.Prelude.Format.{itoa}
use goppstats.Backend.Fields.{fields_for_pp_stat}

-- The token, which must be there.
unfoldable access_token : (String → Option String) → String → Result String
access_token lookup_env token =
    if token == ""
    then err (message "InfluxDBv2 access token is missing or empty")
    else elim (secret_from_env lookup_env token) [
      | err e ↦ err (wrapped "unable to retrieve InfluxDBv2 token from environment" e)
      | ok secret ↦ ok secret
    ]

-- The client library is a parameter: a client of an address and a token, a ping of it, and its interface
-- for writes to a bucket of an organization.
module _ {Client WriteApi W : Type 0} (new_client : String → String → Client)
    (ping : Client → W → Result Bool × W) (write_api : Client → String → String → WriteApi) where
  unfoldable pub init :
      (String → Option String) → String → TomlConfig → W → Result (InfluxSink × WriteApi) × W
  unfolding access_token
  init lookup_env cluster_name config w =
      let ic = config.influx_db_v2 in
      elim (access_token lookup_env ic.token) [
        | err e ↦ (err e, w)
        | ok token ↦
            let client = new_client ("http://" ++ ic.host ++ ":" ++ ic.port) token in
            let (pinged, w') = ping client w in
            elim pinged [
              | err e ↦ (err (wrapped "failed to ping InfluxDBv2" e), w')
              | ok false ↦ (err (message "InfluxDBv2 ping failed - server not reachable"), w')
              | ok true ↦ (
                ok (
                  record {
                    cluster_name = cluster_name;
                    exports = new_export_map config.global.lookup_export_ids;
                  },
                  write_api client ic.org ic.bucket,
                ),
                w',
              )
            ]
      ]

-- What a point is made of: `tags["cluster"]` and `tags["node"]` are set over the tags of a result.
unfoldable pub point_args :
    {Float64 : Type 0} → String → String → PpStatResult Float64 → PtTags → PointArgs Float64
point_args key_name cluster_name stat tags = record {
  key_name = key_name;
  tags = insert "node" (itoa stat.node) (insert "cluster" cluster_name tags);
  fields = fields_for_pp_stat stat;
  time = stat.unix_time;
}

-- Nothing is kept of the datasets.
unfoldable pub update_datasets : DsInfo → InfluxSink → InfluxSink
update_datasets di s = s

-- A point is made without an error; the points are written in one call.
module _ {Float64 Point W : Type 0} (api : ExportApi W)
    (new_point : PointArgs Float64 → Point) where
  unfoldable pub add_points :
      String
      → List (PpStatResult Float64)
      → List Point
      → InfluxSink
      → W
      → List Point × InfluxSink × W
  add_points key_name [] pts s w = (pts, s, w)
  add_points key_name (stat ∷ rest) pts s w =
      let (tags, exports, w') = tags_for_pp_stat api stat s.exports w in
      add_points key_name rest
        (List.◌++◌ pts (new_point (point_args key_name s.cluster_name stat tags) ∷ []))
        (record s { exports = exports }) w'

  module _ (write_point : List Point → W → Result Unit × W) where
    unfoldable pub write_pp_stats :
        DsInfoEntry → List (PpStatResult Float64) → InfluxSink → W → Option Error × InfluxSink × W
    unfolding add_points
    write_pp_stats ds ppstats s w =
        let (pts, s', w') = add_points ds.stat_key ppstats [] s w in
        let (written, w'') = write_point pts w' in
        elim written [
          | err e ↦ (some (wrapped "InfluxDBv2 write failed" e), s', w'')
          | ok _ ↦ (none, s', w'')
        ]

-- ===== src/Influx/V1.antt =====
-- `InfluxDBSink` (influxdb.go).
use Prim.Native.String.{◌++◌}
use mathlib.Core.List
use goppstats.Prelude.{String, string_eq, List, [], ◌∷◌, Option, none, some, if◌then◌else◌}
use goppstats.Prelude.Result.{Result, ok, err, Error, wrapped}
use goppstats.Api.Types.{DsInfo, DsInfoEntry, PpStatResult}
use goppstats.Backend.Exports.{new_export_map, ExportApi}
use goppstats.Backend.Tags.{PtTags, tags_for_pp_stat}
use goppstats.Config.{TomlConfig, InfluxDbConfig}
use goppstats.Config.Read.{secret_from_env}
use goppstats.Influx.{PointArgs, InfluxSink}
use goppstats.Prelude.Dict.{insert}
use goppstats.Prelude.Format.{itoa}
use goppstats.Backend.Fields.{fields_for_pp_stat}

-- `client.HTTPConfig`
pub record HttpConfig : Type 0 where
  pub addr : String
  pub username : String
  pub password : String

-- `client.BatchPointsConfig`
pub record BatchPointsConfig : Type 0 where
  pub database : String
  pub precision : String

abbrev bp_config : InfluxDbConfig → BatchPointsConfig
bp_config ic = record { database = ic.database; precision = "s" }

-- The user name and the password, if the database asks for them.
unfoldable login : (String → Option String) → InfluxDbConfig → Result (String × String)
login lookup_env ic =
    if ic.authenticated
    then elim (secret_from_env lookup_env ic.password) [
      | err e ↦ err (wrapped "unable to retrieve InfluxDB password from environment" e)
      | ok password ↦ ok (ic.username, password)
    ]
    else ok ("", "")

-- The client library is a parameter: a client of an address and a login, and a ping of it.
module _ {Client W : Type 0} (new_http_client : HttpConfig → Result Client)
    (ping : Client → W → Result Unit × W) where
  unfoldable pub init :
      (String → Option String)
      → String
      → TomlConfig
      → W
      → Result (InfluxSink × BatchPointsConfig × Client) × W
  unfolding login
  init lookup_env cluster_name config w =
      let ic = config.influx_db in
      let url = "http://" ++ ic.host ++ ":" ++ ic.port in
      elim (login lookup_env ic) [
        | err e ↦ (err e, w)
        | ok (username, password) ↦
            elim (new_http_client
              (record { addr = url; username = username; password = password })) [
                | err e ↦ (err (wrapped "failed to create InfluxDB client" e), w)
                | ok db_client ↦
                    let (pinged, w') = ping db_client w in
                    elim pinged [
                      | err e ↦ (err (wrapped "failed to ping InfluxDB" e), w')
                      | ok _ ↦ (
                        ok (
                          record {
                            cluster_name = cluster_name;
                            exports = new_export_map config.global.lookup_export_ids;
                          },
                          bp_config ic,
                          db_client,
                        ),
                        w',
                      )
                    ]
              ]
      ]

-- What a point is made of: `tags["cluster"]` and `tags["node"]` are set over the tags of a result.
unfoldable pub point_args :
    {Float64 : Type 0} → String → String → PpStatResult Float64 → PtTags → PointArgs Float64
point_args key_name cluster_name stat tags = record {
  key_name = key_name;
  tags = insert "node" (itoa stat.node) (insert "cluster" cluster_name tags);
  fields = fields_for_pp_stat stat;
  time = stat.unix_time;
}

-- Nothing is kept of the datasets.
unfoldable pub update_datasets : DsInfo → InfluxSink → InfluxSink
update_datasets di s = s

-- A point that the library refuses is logged and left out.
unfoldable pub add_point : {Point : Type 0} → Result Point → List Point → List Point
add_point (ok pt) bp = List.◌++◌ bp (pt ∷ [])
add_point (err e) bp = bp

module _ {Float64 Point W : Type 0} (api : ExportApi W)
    (new_point : PointArgs Float64 → Result Point) where
  -- The loop over the results, after the points of those before.
  unfoldable pub add_points :
      String
      → List (PpStatResult Float64)
      → List Point
      → InfluxSink
      → W
      → List Point × InfluxSink × W
  unfolding add_point
  add_points key_name [] bp s w = (bp, s, w)
  add_points key_name (stat ∷ rest) bp s w =
      let (tags, exports, w') = tags_for_pp_stat api stat s.exports w in
      add_points key_name rest
        (add_point (new_point (point_args key_name s.cluster_name stat tags)) bp)
        (record s { exports = exports }) w'

  -- A batch is made of the sink's configuration of batches, and written.
  module _ (new_batch_points : BatchPointsConfig → Result Unit)
      (write : BatchPointsConfig → List Point → W → Result Unit × W) where
    unfoldable pub write_pp_stats :
        BatchPointsConfig
        → DsInfoEntry
        → List (PpStatResult Float64)
        → InfluxSink
        → W
        → Option Error × InfluxSink × W
    unfolding add_points
    write_pp_stats config ds ppstats s w = elim (new_batch_points config) [
      | err e ↦ (some (wrapped "unable to create InfluxDB batch points" e), s, w)
      | ok _ ↦
          let (bp, s', w') = add_points ds.stat_key ppstats [] s w in
          let (written, w'') = write config bp w' in
          elim written [
            | err e ↦ (some (wrapped "failed to write batch of points" e), s', w'')
            | ok _ ↦ (none, s', w'')
          ]
    ]

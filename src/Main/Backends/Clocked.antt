-- ===== src/Main/Backends/Clocked.antt =====
-- What the writes of the back ends do to the clock.
use goppstats.Prelude.{ℕ, ◌≤◌, String, List, [], ◌∷◌, arith, inl, inr, Bool-cases, Option-cases}
use goppstats.Prelude.Int.{ℤ, int_eq}
use goppstats.Prelude.Dict.{lookup}
use goppstats.Prelude.Result.{Result}
use goppstats.Api.Types.{DsInfoEntry, PpStatResult}
use goppstats.Backend.Exports.{ExportMap, ExportApi}
use goppstats.Backend.Tags.{tags_for_pp_stat, export_tags, export_path_of}
use goppstats.Prometheus.{PrometheusSink}
use goppstats.Prometheus.Write.{write_pp_stats, write_stat}
use mathlib.Core.List
use goppstats.Influx.{InfluxSink, PointArgs}
use goppstats.Influx.V1
use goppstats.Influx.V1.{BatchPointsConfig}
use goppstats.Influx.V2

-- A sink that asks for exports lets the clock run as the answers do.
module _ {Float64 S : Type 0} (api : ExportApi S) (clock : S → ℕ)
    (after : (id : ℤ) (v : S) → clock v ≤ clock (api.get_export_path_by_id id v).1) where
  tags_for_pp_stat-clock :
      (stat : PpStatResult Float64) (exports : ExportMap) (v : S)
      → clock v ≤ clock (tags_for_pp_stat api stat exports v).2
  unfolding tags_for_pp_stat export_tags export_path_of
  tags_for_pp_stat-clock stat exports v = elim (Option-cases stat.export_id) [
    | inl q ↦ ground (arith, q)
    | inr (id, q) ↦ elim (Bool-cases exports.enabled) [
      | inr d ↦ ground (arith, q, d)
      | inl d ↦ elim (Option-cases (lookup id exports.path_by_id)) [
        | inr (path, l) ↦ ground (arith, q, d, l)
        | inl l ↦ ground (arith, q, d, l, after id v)
      ]
    ]
  ]

  pub prometheus-clock :
      (now : ℕ) (ds : DsInfoEntry) (stats : List (PpStatResult Float64))
      (s : PrometheusSink Float64) (v : S)
      → clock v ≤ clock (write_pp_stats api now ds stats s v).2
  unfolding write_pp_stats
  prometheus-clock now ds [] s v = omega arith
  prometheus-clock now ds (stat ∷ rest) s v =
      let (tags, exports, v') = tags_for_pp_stat api stat s.exports v in
      let (error, fam) = write_stat now ds stat tags s in
      let s' : PrometheusSink Float64 = record s { exports = exports; fam = fam } in
      let tagged = tags_for_pp_stat-clock stat s.exports v in
      elim (Option-cases error) [
        | inr (e, q) ↦ ground (arith, q, tagged)
        | inl q ↦ ground (arith, q, tagged, prometheus-clock now ds rest s' v')
      ]

  module _ {Point : Type 0} (new_point : PointArgs Float64 → Result Point)
      (new_batch_points : BatchPointsConfig → Result Unit)
      (write : BatchPointsConfig → List Point → S → Result Unit × S)
      (written : (config : BatchPointsConfig) (points : List Point) (v : S)
        → clock v ≤ clock (write config points v).1) where
    v1_points-clock :
        (key_name : String) (stats : List (PpStatResult Float64)) (bp : List Point) (s : InfluxSink)
        (v : S)
        → clock v ≤ clock (V1.add_points api new_point key_name stats bp s v).2
    unfolding V1.add_points
    v1_points-clock key_name [] bp s v = omega arith
    v1_points-clock key_name (stat ∷ rest) bp s v =
        let (tags, exports, v') = tags_for_pp_stat api stat s.exports v in
        let tagged = tags_for_pp_stat-clock stat s.exports v in
        let args = V1.point_args key_name s.cluster_name stat tags in
        let more =
          v1_points-clock key_name rest (V1.add_point (new_point args) bp)
            (record s { exports = exports }) v' in
        omega arith

    pub influx_db-clock :
        (config : BatchPointsConfig) (ds : DsInfoEntry) (stats : List (PpStatResult Float64))
        (s : InfluxSink) (v : S)
        → clock v
          ≤ clock (V1.write_pp_stats api new_point new_batch_points write config ds stats s v).2
    unfolding V1.write_pp_stats
    influx_db-clock config ds stats s v =
        let (bp, s', v') = V1.add_points api new_point ds.stat_key stats [] s v in
        ground (arith, v1_points-clock ds.stat_key stats [] s v, written config bp v')

  module _ {Point : Type 0} (new_point : PointArgs Float64 → Point)
      (write_point : List Point → S → Result Unit × S)
      (written : (points : List Point) (v : S) → clock v ≤ clock (write_point points v).1) where
    v2_points-clock :
        (key_name : String) (stats : List (PpStatResult Float64)) (bp : List Point) (s : InfluxSink)
        (v : S)
        → clock v ≤ clock (V2.add_points api new_point key_name stats bp s v).2
    unfolding V2.add_points
    v2_points-clock key_name [] bp s v = omega arith
    v2_points-clock key_name (stat ∷ rest) bp s v =
        let (tags, exports, v') = tags_for_pp_stat api stat s.exports v in
        let tagged = tags_for_pp_stat-clock stat s.exports v in
        let args = V2.point_args key_name s.cluster_name stat tags in
        let more =
          v2_points-clock key_name rest (List.◌++◌ bp (new_point args ∷ []))
            (record s { exports = exports }) v' in
        omega arith

    pub influx_db_v2-clock :
        (ds : DsInfoEntry) (stats : List (PpStatResult Float64)) (s : InfluxSink) (v : S)
        → clock v ≤ clock (V2.write_pp_stats api new_point write_point ds stats s v).2
    unfolding V2.write_pp_stats
    influx_db_v2-clock ds stats s v =
        let (bp, s', v') = V2.add_points api new_point ds.stat_key stats [] s v in
        ground (arith, v2_points-clock ds.stat_key stats [] s v, written bp v')

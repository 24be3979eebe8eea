-- ===== src/Influx/Agree.antt =====
-- The two back ends against each other.
use mathlib.Core.List
use goppstats.Prelude.{
  String, List, [], ◌∷◌, none, ◌≡◌, ◌↔◌, refl, ap, ◌∙◌, arith, inl, inr, string_eq,
}
use goppstats.Prelude.Result.{Result, ok, Result-cases}
use goppstats.Api.Types.{DsInfoEntry, PpStatResult}
use goppstats.Backend.Exports.{ExportApi}
use goppstats.Backend.Tags.{PtTags, tags_for_pp_stat}
use goppstats.Influx.{PointArgs, InfluxSink}
use goppstats.Influx.V1
use goppstats.Influx.V2

module _ {Float64 Point W : Type 0} (api : ExportApi W)
    (new_point : PointArgs Float64 → Result Point) (make_point : PointArgs Float64 → Point)
    (new_batch_points : V1.BatchPointsConfig → Result Unit)
    (write : V1.BatchPointsConfig → List Point → W → Result Unit × W) where
  -- The one library accepts the points of these results, and makes of them what the other does.
  unfoldable pub AreAccepted : String → List (PpStatResult Float64) → InfluxSink → W → Type 0
  AreAccepted key_name [] s w = Unit
  AreAccepted key_name (stat ∷ rest) s w =
      let (tags, exports, w') = tags_for_pp_stat api stat s.exports w in
      let args = V1.point_args key_name s.cluster_name stat tags in
      (new_point args ≡ ok (make_point args))
      × AreAccepted key_name rest (record s { exports = exports }) w'

  point_args-agree :
      (key_name cluster_name : String) (stat : PpStatResult Float64) (tags : PtTags)
      → V1.point_args key_name cluster_name stat tags
        ≡ V2.point_args key_name cluster_name stat tags
  unfolding V1.point_args V2.point_args
  point_args-agree key_name cluster_name stat tags = refl

  add_points-agree :
      (key_name : String) (stats : List (PpStatResult Float64)) (pts : List Point) (s : InfluxSink)
      (w : W)
      → AreAccepted key_name stats s w
      → V1.add_points api new_point key_name stats pts s w
        ≡ V2.add_points api make_point key_name stats pts s w
  unfolding V1.add_points V1.add_point V2.add_points AreAccepted
  add_points-agree key_name [] pts s w h = refl
  add_points-agree key_name (stat ∷ rest) pts s w (a, h) =
      let (tags, exports, w') = tags_for_pp_stat api stat s.exports w in
      let same = point_args-agree key_name s.cluster_name stat tags in
      let args = V2.point_args key_name s.cluster_name stat tags in
      let accepted : new_point (V1.point_args key_name s.cluster_name stat tags)
          ≡ ok (make_point args) =
        a ∙ ap (λ x. ok (make_point x)) same in
      rw (accepted, V1.add_point)
        (add_points-agree key_name rest (List.◌++◌ pts (make_point args ∷ []))
          (record s { exports = exports }) w' h)

  -- If the library of the first back end makes its batches, accepts the points of these results and makes
  -- of them what the other's does, and both databases take the same writes, then both back ends leave the
  -- same sink and the same world after the results, and fail alike.
  pub write_pp_stats-agree :
      (config : V1.BatchPointsConfig) (ds : DsInfoEntry) (stats : List (PpStatResult Float64))
      (s : InfluxSink) (w : W)
      → new_batch_points config ≡ ok tt
      → AreAccepted ds.stat_key stats s w
      → ((V1.write_pp_stats api new_point new_batch_points write config ds stats s w).1
          ≡ (V2.write_pp_stats api make_point (write config) ds stats s w).1)
        × ((V1.write_pp_stats api new_point new_batch_points write config ds stats s w).2
            ≡ (V2.write_pp_stats api make_point (write config) ds stats s w).2)
        × ((V1.write_pp_stats api new_point new_batch_points write config ds stats s w).0 ≡ none
            ↔ (V2.write_pp_stats api make_point (write config) ds stats s w).0 ≡ none)
  unfolding V1.write_pp_stats V2.write_pp_stats
  write_pp_stats-agree config ds stats s w b h =
      let (pts, s', w') = V2.add_points api make_point ds.stat_key stats [] s w in
      let a = add_points-agree ds.stat_key stats [] s w h in
      elim (Result-cases (write config pts w').0) [
        | inl (_, e) ↦ (
          ground (arith, b, e, a),
          ground (arith, b, e, a),
          (λ q. ground (arith, b, e, a), λ q. ground (arith, b, e, a)),
        )
        | inr (x, e) ↦ (
          ground (arith, b, e, a),
          ground (arith, b, e, a),
          (λ q. ground (arith, b, e, a, q), λ q. ground (arith, b, e, a, q)),
        )
      ]

-- ===== src/Prometheus/Spec/Runs.antt =====
-- Any sequence of calls of the sink, against the abstract sink.
use mathlib.Core.Path.{fun_ext}
use goppstats.Prelude.{ℕ, List, [], ◌∷◌, ◌≡◌, refl, ap, ◌∙◌, Option, none, some, Bool}
use goppstats.Prelude.Int.{ℤ, int_eq}
use goppstats.Prelude.Result.{Result}
use goppstats.Api.Types.{DsInfo, DsInfoEntry, PpStatResult}
use goppstats.Backend.Exports.{ExportApi}
use goppstats.Backend.Tags.{tags_for_pp_stat}
use goppstats.Prometheus.{PromDsMap, PrometheusSink}
use goppstats.Prometheus.Datasets.{update_dsm, update_datasets}
use goppstats.Prometheus.Datasets.Updates.{lookup-update_dsm}
use goppstats.Prometheus.Samples.{sample_at}
use goppstats.Prometheus.Samples.Valid.{IsValid}
use goppstats.Prometheus.Expire.{expire}
use goppstats.Prometheus.Expire.All.{expire_lem}
use goppstats.Prometheus.Expire.Family.{live}
use goppstats.Prometheus.Collect.{MetricArgs, collect}
use goppstats.Prometheus.Write.{write_pp_stats}
use goppstats.Prometheus.Write.Stat.{write_stat-IsValid}
use goppstats.Prometheus.Write.Results.{
  tags_of, after, next, write_pp_stats-cons, write_pp_stats-IsValid,
}
use goppstats.Prometheus.Spec.{
  slots_of, new_slots, abstract, put_stats, Op, update, write, scrape, replay,
}
use goppstats.Prometheus.Spec.Writes.{view-write_stat}

slots_of-update_dsm :
    (enabled : Bool) (di : DsInfo) (old : Option PromDsMap)
    → slots_of (some (update_dsm enabled di.datasets old))
      ≡ some (new_slots enabled di (slots_of old))
slots_of-update_dsm enabled di none = ap some (fun_ext λ id. lookup-update_dsm enabled none di id)
slots_of-update_dsm enabled di (some dsm) =
    ap some (fun_ext λ id. lookup-update_dsm enabled (some dsm) di id)

abstract-update_datasets :
    {Float64 : Type 0} (di : DsInfo) (s : PrometheusSink Float64)
    → abstract (update_datasets di s)
      ≡ record (abstract s) { slots = some (new_slots s.exports.enabled di (slots_of s.dsm)) }
unfolding update_datasets
abstract-update_datasets di s =
    ap (λ x. record (abstract s) { slots = x }) (slots_of-update_dsm s.exports.enabled di s.dsm)

abstract-expire :
    {Float64 : Type 0} (now : ℕ) (s : PrometheusSink Float64)
    → IsValid s.fam
    → abstract (expire now s)
      ≡ record (abstract s) { view = λ name id. live now (sample_at s.fam name id) }
unfolding expire
abstract-expire now s v =
    ap (λ x. record (abstract s) { view = x })
      (fun_ext λ name. fun_ext λ id. (expire_lem now s name id v).1)

expire-IsValid :
    {Float64 : Type 0} (now : ℕ) (s : PrometheusSink Float64)
    → IsValid s.fam
    → IsValid (expire now s).fam
expire-IsValid now s v = (expire_lem now s "" "" v).0

module _ {Float64 W : Type 0} (api : ExportApi W) where
  abstract-write_pp_stats :
      (now : ℕ) (ds : DsInfoEntry) (stats : List (PpStatResult Float64))
      (s : PrometheusSink Float64) (w : W)
      → IsValid s.fam
      → (abstract (write_pp_stats api now ds stats s w).1, (write_pp_stats api now ds stats s w).2)
        ≡ put_stats api now ds stats (abstract s) w
  unfolding put_stats
  abstract-write_pp_stats now ds [] s w v = unfold write_pp_stats in refl
  abstract-write_pp_stats now ds (stat ∷ rest) s w v =
      let tags = tags_of api now ds stat s w in
      rw (write_pp_stats-cons api now ds stat rest s w v) (
        abstract-write_pp_stats now ds rest (after api now ds stat s w) (next api now ds stat s w)
          (write_stat-IsValid now ds stat tags s v).1
        ∙ ap
            (λ x.
              put_stats api now ds rest
                (record (abstract s) {
                  exports = (tags_for_pp_stat api stat s.exports w).1;
                  view = x;
                })
                (next api now ds stat s w))
            (view-write_stat now ds stat tags s))

  module _ {Metric : Type 0} (new_const_metric : MetricArgs Float64 → Result Metric)
      (with_timestamp : ℤ → Metric → Metric) where
    -- The calls, on the sink.
    unfoldable pub run : List (Op Float64) → PrometheusSink Float64 → W → PrometheusSink Float64 × W
    run [] s w = (s, w)
    run (update di ∷ ops) s w = run ops (update_datasets di s) w
    run (write now ds stats ∷ ops) s w =
        let (error, s', w') = write_pp_stats api now ds stats s w in run ops s' w'
    run (scrape now ∷ ops) s w =
        let (sent, s') = collect new_const_metric with_timestamp now s in run ops s' w

    -- From valid families, any sequence of updates, writes and scrapes ends in valid families, and the
    -- slots, the exports and the samples are then those of the abstract sink after the same calls.
    pub run_refines :
        (ops : List (Op Float64)) (s : PrometheusSink Float64) (w : W)
        → IsValid s.fam
        → IsValid (run ops s w).0.fam
          × ((abstract (run ops s w).0, (run ops s w).1) ≡ replay api ops (abstract s) w)
    unfolding run replay update_datasets collect
    run_refines [] s w v = (v, refl)
    run_refines (update di ∷ ops) s w v =
        let (valid, same) = run_refines ops (update_datasets di s) w v in
        (valid, same ∙ ap (λ x. replay api ops x w) (abstract-update_datasets di s))
    run_refines (write now ds stats ∷ ops) s w v =
        let (error, s', w') = write_pp_stats api now ds stats s w in
        let (valid, same) =
          run_refines ops s' w' (write_pp_stats-IsValid api now ds stats s w v).1 in
        (
          valid,
          same ∙ ap (λ x. replay api ops x.0 x.1) (abstract-write_pp_stats now ds stats s w v),
        )
    run_refines (scrape now ∷ ops) s w v =
        let (valid, same) = run_refines ops (expire now s) w (expire-IsValid now s v) in
        (valid, same ∙ ap (λ x. replay api ops x w) (abstract-expire now s v))

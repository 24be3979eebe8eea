-- ===== src/Prometheus/Scraped.antt =====
-- A result that is written, among others, and the scrapes that follow.
use mathlib.Core.Option
use goppstats.Prelude.{
  ℕ, ◌+◌, ◌*◌, ◌^◌, ◌≤◌, String, List, ◌∷◌, ◌++◌, ◌≡◌, ◌↔◌, refl, sym, ap, ◌∙◌, subst, some, arith,
  string_eq, In,
}
use goppstats.Prelude.Int.{ℤ}
use goppstats.Prelude.Result.{Result, ok}
use goppstats.Api.Types.{DsInfoEntry, PpStatResult}
use goppstats.Backend.{pp_fixed_fields}
use goppstats.Backend.Exports.{ExportMap, ExportApi}
use goppstats.Backend.Tags.{PtTags, tags_for_pp_stat}
use goppstats.Prometheus.{Sample, MetricFamily, PrometheusSink}
use goppstats.Prometheus.Datasets.{basename, dataset_entry}
use goppstats.Prometheus.Datasets.Updates.{made, held}
use goppstats.Prometheus.Samples.{sample_at}
use goppstats.Prometheus.Samples.Valid.{IsValid}
use goppstats.Prometheus.SampleId.{create_sample_id}
use goppstats.Prometheus.Collect.{MetricArgs, collect}
use goppstats.Prelude.Dict.{lookup}
use goppstats.Prometheus.Expire.{expire}
use goppstats.Prometheus.Collect.Labels.{IsCarried}
use goppstats.Prometheus.Collect.Sent.{args_of, Accepts, collect-sends}
use goppstats.Prometheus.Write.{base_labels, make_sample, write_pp_stats}
use goppstats.Prometheus.Write.Samples.{field_value}
use goppstats.Prometheus.Write.Stat.{full_name, write_stat-IsValid}
use goppstats.Prometheus.Write.Results.{
  tags_of, after, next, write_pp_stats-cons, fam_of_one, write_pp_stats-IsValid,
}
use goppstats.Prometheus.Write.Published.{IsKnown, known_labels, write_pp_stats-published}
use goppstats.Prometheus.Write.Others.{
  AreOthers, IsSameSink, sample_at-others, write_pp_stats-IsSameSink, write_pp_stats-append,
}

module _ {Float64 W : Type 0} (api : ExportApi W) (now : ℕ) (ds : DsInfoEntry) where
  module _ (entry : DsInfoEntry) (stat : PpStatResult Float64) where
    -- The sample of a result in a sink.
    abbrev pub published : PrometheusSink Float64 → PtTags → Float64 → Sample Float64
    published s tags value =
        make_sample
          (known_labels stat.workload_type (dataset_entry s.exports.enabled entry).metrics tags
            (base_labels s.cluster_name s.instance_label_name stat.node))
          stat.unix_time now value

    abbrev pub published_name : PrometheusSink Float64 → String → String
    published_name s field =
        full_name (basename (dataset_entry s.exports.enabled entry)) stat.workload_type field

    sample_at-first :
        (rest : List (PpStatResult Float64)) (s : PrometheusSink Float64) (w : W) (field : String)
        (value : Float64)
        → IsValid s.fam
        → IsKnown stat.workload_type
        → held ds.id s.dsm ≡ some (made s.exports.enabled entry)
        → In field pp_fixed_fields
        → field_value stat field ≡ some value
        → let (tags, exports, w') = tags_for_pp_stat api stat s.exports w in
          AreOthers api (create_sample_id tags) rest exports w'
          → sample_at
              (write_pp_stats api now ds (stat ∷ rest) s w).1.fam
              (published_name s field)
              (create_sample_id tags)
            ≡ some (published s tags value)
    sample_at-first rest s w field value v known h m x others =
        let tags = tags_of api now ds stat s w in
        let at = λ (s' : PrometheusSink Float64).
          sample_at s'.fam (published_name s field) (create_sample_id tags) in
        ap (λ r. at r.1) (write_pp_stats-cons api now ds stat rest s w v)
        ∙ sample_at-others api now ds rest (after api now ds stat s w) (next api now ds stat s w)
            (published_name s field) (create_sample_id tags)
            (write_stat-IsValid now ds stat tags s v).1 others
        ∙ ap (λ f. sample_at f (published_name s field) (create_sample_id tags))
            (sym (fam_of_one api now ds stat s w v refl))
        ∙ write_pp_stats-published api now ds entry stat s w field v known h m
        ∙ ap (Option.map (published s tags)) x

    published-IsSameSink :
        (s s' : PrometheusSink Float64) (tags : PtTags) (field : String) (value : Float64)
        → IsSameSink s s'
        → (published s' tags value ≡ published s tags value)
          × (published_name s' field ≡ published_name s field)
    published-IsSameSink s s' tags field value (d, x, c, i) = (rw (x, c, i) refl, rw x refl)

    module _ (before rest : List (PpStatResult Float64)) (s : PrometheusSink Float64) (w : W) where
      -- The tags of the result, after the results before it.
      abbrev pub tags_after : PtTags × ExportMap × W
      tags_after =
          let (error, s', w') = write_pp_stats api now ds before s w in
          tags_for_pp_stat api stat s'.exports w'

      abbrev pub written_sink : PrometheusSink Float64
      written_sink = (write_pp_stats api now ds (before ++ stat ∷ rest) s w).1

      sample_at-written_sink :
          (field : String) (value : Float64)
          → IsValid s.fam
          → IsKnown stat.workload_type
          → held ds.id s.dsm ≡ some (made s.exports.enabled entry)
          → In field pp_fixed_fields
          → field_value stat field ≡ some value
          → AreOthers api (create_sample_id tags_after.0) rest tags_after.1 tags_after.2
          → sample_at written_sink.fam (published_name s field) (create_sample_id tags_after.0)
            ≡ some (published s tags_after.0 value)
      sample_at-written_sink field value v known h m x others =
          let s' = (write_pp_stats api now ds before s w).1 in
          let w' = (write_pp_stats api now ds before s w).2 in
          let same = write_pp_stats-IsSameSink api now ds before s w v in
          let (d, e, c, i) = same in
          let (p, n) = published-IsSameSink s s' tags_after.0 field value same in
          ap (λ r. sample_at r.1.fam (published_name s field) (create_sample_id tags_after.0))
            (write_pp_stats-append api now ds before (stat ∷ rest) s w v)
          ∙ subst
              (λ name.
                sample_at (write_pp_stats api now ds (stat ∷ rest) s' w').1.fam name
                  (create_sample_id tags_after.0)
                ≡ some (published s' tags_after.0 value))
              n
              (sample_at-first rest s' w' field value
                (write_pp_stats-IsValid api now ds before s w v).1 known
                (ap (held ds.id) d ∙ h ∙ ap (λ b. some (made b entry)) (sym e)) m x others)
          ∙ ap some p

      module _ {Metric : Type 0} (new_const_metric : MetricArgs Float64 → Result Metric)
          (with_timestamp : ℤ → Metric → Metric) where
        pub write_pp_stats-collect :
            (IsAllowed : MetricArgs Float64 → Type 0) (t : ℕ) (field : String) (value : Float64)
            → Accepts new_const_metric with_timestamp IsAllowed
            → ((fam : MetricFamily Float64)
                → lookup (published_name s field) (expire t written_sink).fam ≡ some fam
                → IsAllowed (args_of (published_name s field) fam (published s tags_after.0 value)))
            → IsValid s.fam
            → IsKnown stat.workload_type
            → held ds.id s.dsm ≡ some (made s.exports.enabled entry)
            → In field pp_fixed_fields
            → field_value stat field ≡ some value
            → AreOthers api (create_sample_id tags_after.0) rest tags_after.1 tags_after.2
            → t ≤ now + 30 * 10 ^ 9
            → (fam : MetricFamily Float64) × (m : Metric) × (lookup
                  (published_name s field)
                  (expire t written_sink).fam
                ≡ some fam)
              × (lookup (create_sample_id tags_after.0) fam.samples
                  ≡ some (published s tags_after.0 value))
              × ((k : String)
                  → In k
                      (args_of (published_name s field) fam (published s tags_after.0 value)).names
                    ↔ IsCarried fam k)
              × (new_const_metric
                    (args_of (published_name s field) fam (published s tags_after.0 value))
                  ≡ ok m)
              × In
                  (with_timestamp stat.unix_time m)
                  (collect new_const_metric with_timestamp t written_sink).0
        write_pp_stats-collect IsAllowed t field value accepts allowed v known h m x others live =
            let (fam, made_of, f, i, labelled, a, sent) =
              collect-sends new_const_metric with_timestamp IsAllowed t written_sink
                (published_name s field) (create_sample_id tags_after.0)
                (published s tags_after.0 value) accepts allowed
                (write_pp_stats-IsValid api now ds (before ++ stat ∷ rest) s w v).1
                (sample_at-written_sink field value v known h m x others) (ground (arith, live)) in
            (fam, made_of, f, i, labelled, a, sent)

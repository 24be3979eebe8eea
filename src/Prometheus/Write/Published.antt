-- ===== src/Prometheus/Write/Published.antt =====
-- What a result leaves under the metric names of its dataset.
use mathlib.Core.Option
use goppstats.Prelude.{
  ℕ, String, List, [], ◌∷◌, ◌≡◌, refl, sym, Option, none, some, true, arith, string_eq, ◌⊎◌,
  if◌then◌else◌, ◌∙◌, ap, subst, inl, inr, All, In, All-In,
}
use goppstats.Prelude.Int.{ℤ}
use goppstats.Prelude.Dict.{Dict, lookup, insert}
use goppstats.Api.Types.{DsInfoEntry, PpStatResult}
use goppstats.Backend.{
  pp_fixed_fields, is_valid_workload_type, w_additional, w_excluded, w_overaccounted, w_system,
  w_unknown, w_pinned, workload_types,
}
use goppstats.Prometheus.{PromMetric, PromDsInternal, PromDsMap, PrometheusSink}
use goppstats.Prometheus.Datasets.{make_prom_dataset, fill_metrics, basename, dataset_entry}
use goppstats.Prometheus.Datasets.Updates.{made, held}
use goppstats.Prometheus.Write.{
  metric_at, field_key, is_overflow, is_pinned, dataset_labels, stat_labels, base_labels,
  make_sample, dataset_at, write_pp_stats,
}
use goppstats.Prometheus.Samples.{sample_at}
use goppstats.Prometheus.Samples.Valid.{IsValid}
use goppstats.Prometheus.SampleId.{create_sample_id}
use goppstats.Prometheus.Write.Samples.{field_value}
use goppstats.Prometheus.Write.Results.{fam_of_one}
use goppstats.Backend.Tags.{PtTags, tags_for_pp_stat}
use goppstats.Backend.Exports.{ExportApi}
use goppstats.Prometheus.Write.Stat.{full_name, IsNamed, sample_at-full_name}

-- The workload types that the program knows: none, pinned, and the overflow buckets.
abbrev pub IsKnown : Option String → Type 0
IsKnown none = Unit
IsKnown (some t) = (t ≡ w_pinned) ⊎ (is_valid_workload_type t ≡ true)

bucket_cases : (t : String) → is_valid_workload_type t ≡ true → In t workload_types
unfolding is_valid_workload_type
bucket_cases t h = ground (
  arith,
  string_eq.beq_iff t w_additional,
  string_eq.beq_iff t w_excluded,
  string_eq.beq_iff t w_overaccounted,
  string_eq.beq_iff t w_system,
  string_eq.beq_iff t w_unknown,
)

-- The metrics that a dataset is given, for the regular buckets.
abbrev metrics_of : DsInfoEntry → Dict String PromMetric
metrics_of ds = (fill_metrics (make_prom_dataset ds)).metrics

none-IsNamed : (ds : DsInfoEntry) → IsNamed (basename ds) none (metrics_of ds)
unfolding full_name fill_metrics make_prom_dataset metric_at field_key lookup insert
none-IsNamed ds = ground arith

some-IsNamed :
    (ds : DsInfoEntry)
    → All (λ wt. IsNamed (basename ds) (some wt) (metrics_of ds)) (w_pinned ∷ workload_types)
unfolding full_name fill_metrics make_prom_dataset metric_at field_key lookup insert
some-IsNamed ds = ground arith

-- The metrics of a dataset are named after it, for every known workload type.
fill_metrics-IsNamed :
    (ds : DsInfoEntry) (wt : Option String) → IsKnown wt → IsNamed (basename ds) wt (metrics_of ds)
fill_metrics-IsNamed ds none k = none-IsNamed ds
fill_metrics-IsNamed ds (some t) k =
    All-In (λ wt. IsNamed (basename ds) (some wt) (metrics_of ds)) (w_pinned ∷ workload_types) t
      (some-IsNamed ds) (known k)
  where
    known : IsKnown (some t) → In t (w_pinned ∷ workload_types)
    known (inl e) = inl e
    known (inr h) = inr (bucket_cases t h)

-- The labels of a result of a known type, in a dataset with these metrics.
abbrev pub known_labels :
    Option String → List String → PtTags → Dict String String → Dict String String
known_labels wt metrics tags labels =
    if is_overflow wt
    then labels
    else insert "pinned" (if is_pinned wt then "true" else "false")
        (dataset_labels tags metrics labels)

stat_labels_of_known :
    (wt : Option String) (metrics : List String) (tags : PtTags) (labels : Dict String String)
    → IsKnown wt
    → stat_labels wt metrics tags labels ≡ some (known_labels wt metrics tags labels)
unfolding stat_labels
stat_labels_of_known none metrics tags labels k = refl
stat_labels_of_known (some t) metrics tags labels k = ground (arith, string_eq.beq_iff t w_pinned)

dataset_at_of_held :
    (id : ℤ) (dsm : Option PromDsMap) {d : PromDsInternal}
    → held id dsm ≡ some d
    → dataset_at id dsm ≡ d
unfolding dataset_at
dataset_at_of_held id none h = ground arith
dataset_at_of_held id (some dsm) h = ground arith

ds-made : (ds : DsInfoEntry) → (fill_metrics (make_prom_dataset ds)).ds ≡ ds
unfolding fill_metrics make_prom_dataset
ds-made ds = refl

module _ {Float64 W : Type 0} (api : ExportApi W) (now : ℕ) (ds entry : DsInfoEntry)
    (stat : PpStatResult Float64) (s : PrometheusSink Float64) (w : W) where
  abbrev tags : PtTags
  tags = (tags_for_pp_stat api stat s.exports w).0

  pub write_pp_stats-published :
      (field : String)
      → IsValid s.fam
      → IsKnown stat.workload_type
      → held ds.id s.dsm ≡ some (made s.exports.enabled entry)
      → In field pp_fixed_fields
      → sample_at
          (write_pp_stats api now ds (stat ∷ []) s w).1.fam
          (full_name (basename (dataset_entry s.exports.enabled entry)) stat.workload_type field)
          (create_sample_id tags)
        ≡ Option.map
            (make_sample
              (known_labels stat.workload_type
                (dataset_entry s.exports.enabled entry).metrics
                tags
                (base_labels s.cluster_name s.instance_label_name stat.node))
              stat.unix_time
              now)
            (field_value stat field)
  write_pp_stats-published field v k h m =
      let entry' = dataset_entry s.exports.enabled entry in
      let d = dataset_at_of_held ds.id s.dsm h in
      let base = base_labels s.cluster_name s.instance_label_name stat.node in
      ap
        (λ f.
          sample_at f (full_name (basename entry') stat.workload_type field)
            (create_sample_id tags))
        (fam_of_one api now ds stat s w v refl)
      ∙ sample_at-full_name now ds stat tags s (basename entry') field
          (ap (λ x. stat_labels stat.workload_type x.ds.metrics tags base) d
            ∙ ap (λ x. stat_labels stat.workload_type x.metrics tags base) (ds-made entry')
            ∙ stat_labels_of_known stat.workload_type entry'.metrics tags base k)
          (subst (λ x. IsNamed (basename entry') stat.workload_type x.metrics) (sym d)
            (fill_metrics-IsNamed entry' stat.workload_type k))
          m

-- ===== src/Examples/Exposed.antt =====
-- Bob's work, written between Alice's on two nodes, in a scrape 20 seconds later.
use goppstats.Prelude.{
  ℕ, subst, ◌↔◌, String, [], ◌∷◌, ◌++◌, some, ◌≡◌, refl, inl, inr, In, arith, false, true,
  string_eq,
}
use goppstats.Prelude.Result.{ok}
use goppstats.Prelude.Dict.{lookup, insert}
use goppstats.Prelude.Order.{sort, text_before}
use goppstats.Prelude.Format.{itoa}
use goppstats.Api.Types.{PpStatResult}
use goppstats.Backend.{f_ops}
use goppstats.Backend.Exports.{ExportMap}
use goppstats.Backend.Tags.{
  PtTags, tags_for_pp_stat, export_tags, export_path_of, criteria_tags, set_opt,
}
use goppstats.Backend.Fields.{fields_for_pp_stat, as_float64}
use goppstats.Prometheus.{Sample, MetricFamily, PrometheusSink}
use goppstats.Prometheus.Samples.Valid.{nil-IsValid}
use goppstats.Prometheus.SampleId.{create_sample_id}
use goppstats.Prometheus.Collect.{MetricArgs, collect}
use goppstats.Prometheus.Collect.Sent.{args_of}
use goppstats.Prometheus.Write.{write_pp_stats, write_stat, stat_labels}
use goppstats.Prometheus.Write.Others.{AreOthers}
use goppstats.Prometheus.Scraped.{published, published_name, tags_after, write_pp_stats-collect}
use goppstats.Prometheus.Expire.{expire}
use goppstats.Prometheus.Collect.Labels.{IsCarried}
use goppstats.Prometheus.Samples.{add_metric_family, add_sample, bump, bump_all, discount}
use goppstats.Prometheus.Write.{
  metric_at, dataset_at, field_key, base_labels, dataset_labels, is_overflow, is_pinned,
  write_fields,
}
use goppstats.Prometheus.Datasets.{
  fill_metrics, make_prom_dataset, dataset_entry, append_export_paths, basename, basename_from,
  bucket_metrics, metric_names, overflow_metrics, regular_metrics,
}
use goppstats.Prometheus.Expire.{
  drop_sample, expire_families, expire_family, expire_samples, keep_family,
}
use goppstats.Backend.{is_valid_workload_type}
use goppstats.Prelude.Dict.{remove}
use goppstats.Prometheus.Write.Stat.{full_name}
use goppstats.Prelude.Format.{nat_text}
use goppstats.Prelude.Int.{◌+ℤ◌, ◌-ℤ◌}
use goppstats.Prometheus.SampleId.{join}
use goppstats.Prometheus.Collect.{label_names, metric_args}
use goppstats.Examples.Families.{IsAllowed, keep, IsAllowedFor}
use goppstats.Examples.Data.{api, stat, stat_on_node_2, entry, sink}

abbrev bob : PpStatResult ℕ
bob = record stat { username = some "bob"; ops = 40 }

abbrev bobs : PtTags × ExportMap × ℕ
bobs = tags_after api 5 entry entry bob (stat ∷ []) (stat_on_node_2 ∷ []) sink 0

alice_is_other : AreOthers api (create_sample_id bobs.0) (stat_on_node_2 ∷ []) bobs.1 bobs.2
unfolding AreOthers tags_for_pp_stat export_tags export_path_of criteria_tags set_opt itoa
    create_sample_id sort text_before lookup insert write_pp_stats write_stat stat_labels as_float64
    fields_for_pp_stat
alice_is_other = (λ e. let q : false ≡ true = (string_eq.beq_iff _ _).1 e in ground (arith, q), tt)

-- Bob's sample, and the sink after the writes.
abbrev bobs_sample : Sample ℕ
bobs_sample = published api 5 entry entry bob sink bobs.0 40

abbrev bobs_family : String
bobs_family = published_name api 5 entry entry bob sink f_ops

abbrev all_written : PrometheusSink ℕ
all_written = (write_pp_stats api 5 entry ((stat ∷ []) ++ bob ∷ stat_on_node_2 ∷ []) sink 0).1

bobs_labels :
    IsAllowedFor bobs_family bobs_sample (lookup bobs_family (expire 20000000005 all_written).fam)
unfolding lookup insert fields_for_pp_stat as_float64 expire write_pp_stats stat_labels
    add_metric_family metric_at dataset_at fill_metrics make_prom_dataset field_key sort
    dataset_entry text_before add_sample create_sample_id tags_for_pp_stat criteria_tags set_opt
    export_path_of export_tags is_valid_workload_type remove itoa nat_text ◌+ℤ◌ ◌-ℤ◌
    append_export_paths basename basename_from bucket_metrics metric_names overflow_metrics
    regular_metrics drop_sample expire_families expire_family expire_samples keep_family join bump
    bump_all discount base_labels dataset_labels is_overflow is_pinned write_fields write_stat
    label_names metric_args full_name
bobs_labels = refl

write_pp_stats-collect_example :
    (fam : MetricFamily ℕ) × (m : MetricArgs ℕ) × (lookup bobs_family
        (expire 20000000005 all_written).fam
      ≡ some fam)
    × (lookup (create_sample_id bobs.0) fam.samples ≡ some bobs_sample)
    × ((k : String) → In k (args_of bobs_family fam bobs_sample).names ↔ IsCarried fam k)
    × (keep (args_of bobs_family fam bobs_sample) ≡ ok m)
    × In m (collect keep (λ t a. a) 20000000005 all_written).0
unfolding lookup insert fields_for_pp_stat as_float64
write_pp_stats-collect_example =
    write_pp_stats-collect api 5 entry entry bob (stat ∷ []) (stat_on_node_2 ∷ []) sink 0 keep
      (λ t a. a) IsAllowed 20000000005 f_ops 40 (λ args a d l. (args, ground (arith, a)))
      (λ fam f. subst (IsAllowedFor bobs_family bobs_sample) f bobs_labels) nil-IsValid tt refl
      (inr (inr (inr (inr (inl refl))))) refl alice_is_other (omega arith)

-- ===== src/Examples/Scrape.antt =====
-- The Prometheus backend on the small cluster.
use goppstats.Prelude.{[], ◌∷◌, ◌≡◌, refl, none, some, true, inl, inr, string_eq}
use goppstats.Prelude.Int.{pos}
use goppstats.Prelude.Dict.{lookup, insert}
use goppstats.Backend.{f_ops}
use goppstats.Prometheus.Datasets.{
  basename, dataset_entry, entries_by_id, update_datasets, fill_metrics, make_prom_dataset,
}
use goppstats.Examples.Data.{
  api, stat, stat_on_node_2, entry, answer, sink, ops_family, alice_id, ops_sample,
}
use goppstats.Prometheus.Datasets.Updates.{made, held, update_datasets_lem}
use goppstats.Prometheus.Samples.{sample_at}
use goppstats.Prometheus.Samples.Valid.{IsValid, nil-IsValid}
use goppstats.Prometheus.SampleId.{create_sample_id}
use goppstats.Prometheus.Expire.{expire}
use goppstats.Prometheus.Expire.All.{expire_lem}
use goppstats.Prelude.Order.{sort, text_before}
use goppstats.Prelude.Format.{itoa}
use goppstats.Backend.Tags.{tags_for_pp_stat, export_tags, criteria_tags, set_opt}
use goppstats.Backend.Fields.{fields_for_pp_stat, as_float64}
use goppstats.Prometheus.Write.Stat.{full_name}
use goppstats.Prometheus.Write.{
  write_pp_stats, field_key, base_labels, dataset_labels, is_pinned, is_overflow,
}
use goppstats.Prometheus.Write.Results.{write_pp_stats-IsValid, write_pp_stats-SameCriteria}
use goppstats.Prometheus.Write.Published.{write_pp_stats-published}

write_pp_stats-published_example :
    sample_at (write_pp_stats api 5 entry (stat ∷ []) sink 0).1.fam ops_family alice_id
    ≡ some ops_sample
unfolding full_name basename dataset_entry tags_for_pp_stat export_tags criteria_tags set_opt itoa
    create_sample_id sort text_before field_key base_labels dataset_labels is_pinned is_overflow
    fields_for_pp_stat as_float64 lookup insert
write_pp_stats-published_example =
    write_pp_stats-published api 5 entry entry stat sink 0 f_ops nil-IsValid tt refl
      (inr (inr (inr (inr (inl refl)))))

write_pp_stats-IsValid_example :
    ((write_pp_stats api 5 entry (stat ∷ stat_on_node_2 ∷ []) sink 0).0 ≡ none)
    × IsValid (write_pp_stats api 5 entry (stat ∷ stat_on_node_2 ∷ []) sink 0).1.fam
write_pp_stats-IsValid_example =
    write_pp_stats-IsValid api 5 entry (stat ∷ stat_on_node_2 ∷ []) sink 0 nil-IsValid

-- Alice's work on node 2 takes the place of her work on node 1.
write_pp_stats-SameCriteria_example :
    sample_at
      (write_pp_stats api 5 entry (stat ∷ stat_on_node_2 ∷ []) sink 0).1.fam
      ops_family
      alice_id
    ≡ sample_at (write_pp_stats api 5 entry (stat_on_node_2 ∷ []) sink 0).1.fam ops_family alice_id
write_pp_stats-SameCriteria_example =
    write_pp_stats-SameCriteria api 5 entry stat stat_on_node_2 sink 0 ops_family alice_id
      (unfold criteria_tags in record { tags = λ t. refl; export = refl; kind = refl }) nil-IsValid

update_datasets_lem_example :
    held (pos 1) (update_datasets answer sink).dsm ≡ some (made true entry)
unfolding lookup insert entries_by_id fill_metrics make_prom_dataset dataset_entry
update_datasets_lem_example = update_datasets_lem answer sink (pos 1)

expire_lem_example :
    IsValid (expire 40000000000 sink).fam
    × (sample_at (expire 40000000000 sink).fam ops_family alice_id ≡ none)
unfolding lookup
expire_lem_example = expire_lem 40000000000 sink ops_family alice_id nil-IsValid

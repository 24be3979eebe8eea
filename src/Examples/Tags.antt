-- ===== src/Examples/Tags.antt =====
-- The tags of a result.
use mathlib.Core.List.Perm
use goppstats.Prelude.{ℕ, String, [], ◌∷◌, ◌≡◌, some, string_eq}
use goppstats.Prelude.Dict.{Dict, lookup, insert}
use goppstats.Backend.Exports.{ExportMap}
use goppstats.Backend.Tags.{export_path_of, tags_for_pp_stat}
use goppstats.Backend.Tags.Laws.{lookup-tags_for_pp_stat, tags_for_pp_stat-again}
use goppstats.Prometheus.SampleId.{create_sample_id, create_sample_id-perm}
use goppstats.Examples.Data.{api, stat, sink}

lookup-tags_for_pp_stat_example :
    lookup "export_path" (tags_for_pp_stat api stat sink.exports 0).0 ≡ some "/ifs/data"
unfolding export_path_of lookup insert
lookup-tags_for_pp_stat_example = lookup-tags_for_pp_stat api stat sink.exports 0 "export_path"

abbrev asked : (Dict String String) × ExportMap × ℕ
asked = tags_for_pp_stat api stat sink.exports 0

tags_for_pp_stat-again_example :
    tags_for_pp_stat api stat asked.1 asked.2 ≡ (asked.0, asked.1, asked.2)
tags_for_pp_stat-again_example = tags_for_pp_stat-again api stat sink.exports 0

create_sample_id-perm_example :
    create_sample_id (("a", "1") ∷ ("b", "2") ∷ [])
    ≡ create_sample_id (("b", "2") ∷ ("a", "1") ∷ [])
create_sample_id-perm_example =
    create_sample_id-perm (("a", "1") ∷ ("b", "2") ∷ []) (("b", "2") ∷ ("a", "1") ∷ [])
      (Perm.swap ("b", "2") ("a", "1") [])

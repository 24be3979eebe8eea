-- ===== src/Prometheus/Write/Labels.antt =====
-- The labels that a result's samples carry.
use goppstats.Prelude.{
  String, List, [], ◌∷◌, ◌≡◌, refl, Option, some, arith, ◌==◌, string_eq, if◌then◌else◌, contains,
}
use goppstats.Prelude.Dict.{Dict, lookup, insert, lookup-insert}
use goppstats.Backend.Tags.{PtTags}
use goppstats.Prometheus.Collect.{text_or_empty}
use goppstats.Prometheus.Write.{dataset_labels, is_overflow, is_pinned, stat_labels}

lookup-dataset_labels :
    (tags : PtTags) (metrics : List String) (labels : Dict String String) (j : String)
    → lookup j (dataset_labels tags metrics labels)
      ≡ (if contains j metrics then some (text_or_empty (lookup j tags)) else lookup j labels)
unfolding dataset_labels
lookup-dataset_labels tags [] labels j = refl
lookup-dataset_labels tags (m ∷ ms) labels j =
    let value = text_or_empty (lookup m tags) in
    ground (
      arith,
      lookup-dataset_labels tags ms (insert m value labels) j,
      lookup-insert m j value labels,
      string_eq.beq_iff m j,
    )

-- A label of the samples of a result, from the labels of its sink and node and from its tags.
abbrev pub label :
    Option String → List String → PtTags → Dict String String → String → Option String
label workload_type metrics tags labels j =
    if is_overflow workload_type
    then lookup j labels
    else if "pinned" == j
    then some (if is_pinned workload_type then "true" else "false")
    else if contains j metrics
    then some (text_or_empty (lookup j tags))
    else lookup j labels

-- An overflow bucket has the labels of its sink and node only; another result has "pinned", every
-- metric of its dataset with its tag or the empty text, and the labels of its sink and node.
pub lookup-stat_labels :
    (workload_type : Option String) (metrics : List String) (tags : PtTags)
    (labels : Dict String String) {result : Dict String String} (j : String)
    → stat_labels workload_type metrics tags labels ≡ some result
    → lookup j result ≡ label workload_type metrics tags labels j
unfolding stat_labels
lookup-stat_labels workload_type metrics tags labels {result} j h =
    let pinned : String = if is_pinned workload_type then "true" else "false" in
    ground (
      arith,
      lookup-insert "pinned" j pinned (dataset_labels tags metrics labels),
      lookup-dataset_labels tags metrics labels j,
    )

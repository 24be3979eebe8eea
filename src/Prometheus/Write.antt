-- ===== src/Prometheus/Write.antt =====
-- `WritePPStats` (prometheus.go).
pub mod Samples
pub mod Stat
pub mod Results
pub mod Others
pub mod Published
pub mod Labels
use Prim.Native.String.{◌++◌}
use mathlib.Core.Bool.{not}
use goppstats.Prelude.{
  ℕ, ◌+◌, ◌*◌, ◌^◌, String, List, [], ◌∷◌, Option, none, some, Bool, false, ◌==◌, string_eq,
  if◌then◌else◌,
}
use goppstats.Prelude.Int.{ℤ, pos, int_eq}
use goppstats.Prelude.Result.{Error, message}
use goppstats.Prelude.Format.{itoa}
use goppstats.Prelude.Dict.{Dict, lookup, insert}
use goppstats.Api.Types.{DsInfoEntry, PpStatResult}
use goppstats.Backend.{pp_fixed_fields, w_pinned, is_valid_workload_type}
use goppstats.Backend.Fields.{PtFields, as_float64, fields_for_pp_stat}
use goppstats.Backend.Exports.{ExportApi}
use goppstats.Backend.Tags.{PtTags, tags_for_pp_stat}
use goppstats.Prometheus.{PromMetric, PromDsInternal, PromDsMap, Sample, Families, PrometheusSink}
use goppstats.Prometheus.Samples.{add_metric_family}
use goppstats.Prometheus.SampleId.{create_sample_id}
use goppstats.Prometheus.Collect.{text_or_empty}

-- The zero values that a read of a missing key gives.
abbrev pub zero_ds : PromDsInternal
zero_ds = record {
  ds = record {
    creation_time = pos 0;
    filter_count = pos 0;
    filters = [];
    id = pos 0;
    metrics = [];
    name = "";
    stat_key = "";
    workload_count = pos 0;
  };
  metrics = [];
}

abbrev zero_metric : PromMetric
zero_metric = record { name = ""; description = ""; labels = [] }

unfoldable pub dataset_at : ℤ → Option PromDsMap → PromDsInternal
dataset_at id none = zero_ds
dataset_at id (some dsm) = elim (lookup id dsm) [ none ↦ zero_ds | some dsi ↦ dsi ]

unfoldable pub metric_at : String → Dict String PromMetric → PromMetric
metric_at key metrics = elim (lookup key metrics) [ none ↦ zero_metric | some m ↦ m ]

-- `workloadType != nil && *workloadType != wPinned`
unfoldable pub is_overflow : Option String → Bool
is_overflow none = false
is_overflow (some t) = not (t == w_pinned)

-- `workloadType != nil && *workloadType == wPinned`
unfoldable pub is_pinned : Option String → Bool
is_pinned none = false
is_pinned (some t) = t == w_pinned

unfoldable pub base_labels : String → String → ℤ → Dict String String
base_labels cluster_name instance_label_name node =
    let labels : Dict String String =
      insert "node" (itoa node) (insert "cluster" cluster_name []) in
    if instance_label_name == "" then labels else insert instance_label_name cluster_name labels

-- `for _, label := range dsi.ds.Metrics { labels[label] = tags[label] }`
unfoldable pub dataset_labels : PtTags → List String → Dict String String → Dict String String
dataset_labels tags [] labels = labels
dataset_labels tags (label ∷ rest) labels =
    dataset_labels tags rest (insert label (text_or_empty (lookup label tags)) labels)

-- The labels of a result, or `none` for a workload type that is unknown: the result is skipped.
unfoldable pub stat_labels :
    Option String → List String → PtTags → Dict String String → Option (Dict String String)
unfolding dataset_labels is_overflow is_pinned
stat_labels workload_type metrics tags labels =
    if is_overflow workload_type
    then if is_valid_workload_type (text_or_empty workload_type) then some labels else none
    else some (
        insert "pinned" (if is_pinned workload_type then "true" else "false")
          (dataset_labels tags metrics labels))

-- An overflow bucket's key is "<bucket>_<field>".
unfoldable pub field_key : Option String → String → String
unfolding is_overflow
field_key workload_type field =
    if is_overflow workload_type then text_or_empty workload_type ++ "_" ++ field else field

-- 30 seconds
abbrev lifetime : ℕ
lifetime = 30 * 10 ^ 9

module _ {Float64 : Type 0} where
  -- The loop over the fields: the families, and the error of an early return.
  unfoldable pub write_fields :
      String
      → Dict String PromMetric
      → Option String
      → PtFields Float64
      → (Float64 → Sample Float64)
      → String
      → List String
      → Families Float64
      → Option Error × Families Float64
  write_fields ds_name metrics workload_type field_map sample_of id [] fams = (none, fams)
  write_fields ds_name metrics workload_type field_map sample_of id (field ∷ rest) fams =
      let m = metric_at (field_key workload_type field) metrics in
      elim (as_float64 (lookup field field_map)) [
        | none ↦ (
          some (message ("unexpected null value for field " ++ field ++ " in dataset " ++ ds_name)),
          fams,
        )
        | some value ↦
            write_fields ds_name metrics workload_type field_map sample_of id rest
              (add_metric_family (sample_of value) m.name m.description id fams)
      ]

  abbrev pub make_sample : Dict String String → ℤ → ℕ → Float64 → Sample Float64
  make_sample labels unix_time now value = record {
    labels = labels;
    value = value;
    timestamp = unix_time;
    expiration = now + lifetime;
  }

module _ {Float64 : Type 0} (now : ℕ) where
  -- One round of the loop over the results, with the tags already made.
  unfoldable pub write_stat :
      DsInfoEntry
      → PpStatResult Float64
      → PtTags
      → PrometheusSink Float64
      → Option Error × Families Float64
  unfolding write_fields
  write_stat ds stat tags s =
      let dsi = dataset_at ds.id s.dsm in
      let labels = base_labels s.cluster_name s.instance_label_name stat.node in
      elim (stat_labels stat.workload_type dsi.ds.metrics tags labels) [
        | none ↦ (none, s.fam)
        | some labels' ↦
            write_fields ds.name dsi.metrics stat.workload_type (fields_for_pp_stat stat)
              (make_sample labels' stat.unix_time now) (create_sample_id tags) pp_fixed_fields s.fam
      ]

module _ {Float64 W : Type 0} (api : ExportApi W) (now : ℕ) where
  unfoldable pub write_pp_stats :
      DsInfoEntry
      → List (PpStatResult Float64)
      → PrometheusSink Float64
      → W
      → Option Error × PrometheusSink Float64 × W
  unfolding write_stat
  write_pp_stats ds [] s w = (none, s, w)
  write_pp_stats ds (stat ∷ rest) s w =
      let (tags, exports, w') = tags_for_pp_stat api stat s.exports w in
      let (error, fam) = write_stat now ds stat tags s in
      let s' : PrometheusSink Float64 = record s { exports = exports; fam = fam } in
      elim error [ some e ↦ (some e, s', w') | none ↦ write_pp_stats ds rest s' w' ]

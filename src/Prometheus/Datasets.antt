-- ===== src/Prometheus/Datasets.antt =====
-- The datasets of the Prometheus backend: `makePromDataset`, `makePromMetrics`, `CreateDataset`,
-- `ClearDataset` and `UpdateDatasets` (prometheus.go).
pub mod Updates
use Prim.Native.String.{◌++◌}
use mathlib.Core.List
use goppstats.Prelude.{
  ℕ, zero, suc, ◌+◌, String, List, [], ◌∷◌, Option, none, some, Bool, ◌==◌, string_eq,
  if◌then◌else◌,
}
use goppstats.Prelude.Int.{ℤ, pos, int_eq}
use goppstats.Prelude.Dict.{Dict, lookup, insert, remove}
use goppstats.Prelude.Order.{sort, text_ord}
use goppstats.Prelude.Format.{itoa}
use goppstats.Api.Types.{DsInfoEntry, DsInfo, max_ds_id}
use goppstats.Backend.{pp_fixed_fields, workload_types}
use goppstats.Prometheus.{
  namespace, base_pp_name, PromMetric, PromDsInternal, PromDsMap, PrometheusSink,
}

unfoldable pub make_prom_dataset : DsInfoEntry → PromDsInternal
make_prom_dataset ds = record { ds = ds; metrics = [] }

-- `basename = basename + "_" + m` over the metric names
unfoldable pub basename_from : String → List String → String
basename_from base [] = base
basename_from base (m ∷ ms) = basename_from (base ++ "_" ++ m) ms

abbrev pub Metrics : Type 0
Metrics = Dict String PromMetric

-- The loop over the fields, for one overflow bucket.
unfoldable pub bucket_metrics : ℤ → String → List String → String → List String → Metrics → Metrics
bucket_metrics id base labels wb [] metrics = metrics
bucket_metrics id base labels wb (field ∷ fields) metrics =
    let field_key = wb ++ "_" ++ field in
    bucket_metrics id base labels wb fields (
      insert field_key
        (record {
          name = base ++ "_" ++ field_key;
          description =
              "pp dataset " ++ itoa id ++ ", overflow bucket " ++ wb ++ ", metric " ++ field;
          labels = labels;
        })
        metrics)

unfoldable pub overflow_metrics : ℤ → String → List String → List String → Metrics → Metrics
unfolding bucket_metrics
overflow_metrics id base labels [] metrics = metrics
overflow_metrics id base labels (wb ∷ wbs) metrics =
    overflow_metrics id base labels wbs (bucket_metrics id base labels wb pp_fixed_fields metrics)

-- The loop over the fields for the regular buckets.
unfoldable pub regular_metrics : ℤ → String → List String → List String → Metrics → Metrics
regular_metrics id base labels [] metrics = metrics
regular_metrics id base labels (field ∷ fields) metrics = regular_metrics id base labels fields (
    insert field
      (record {
        name = base ++ "_" ++ field;
        description = "pp dataset " ++ itoa id ++ ", metric " ++ field;
        labels = labels;
      })
      metrics)

unfoldable pub metric_names : DsInfoEntry → List String
metric_names ds = sort ds.metrics

unfoldable pub basename : DsInfoEntry → String
unfolding basename_from metric_names
basename ds = basename_from (namespace ++ "_" ++ base_pp_name) (metric_names ds)

-- What `makePromMetrics` does to the dataset that it read from the map.
unfoldable pub fill_metrics : PromDsInternal → PromDsInternal
unfolding overflow_metrics regular_metrics basename metric_names
fill_metrics dsi =
    let labels : List String = "cluster" ∷ "node" ∷ [] in
    let overflow = overflow_metrics dsi.ds.id (basename dsi.ds) labels workload_types dsi.metrics in
    record dsi {
      metrics =
          regular_metrics dsi.ds.id (basename dsi.ds) (List.◌++◌ labels (metric_names dsi.ds))
            pp_fixed_fields overflow;
    }

-- The metrics map of the dataset is shared with the one in the map, so the writes reach it. Its only
-- call comes just after the dataset is stored, so the missing case is not met.
unfoldable pub make_prom_metrics : ℤ → PromDsMap → PromDsMap
make_prom_metrics id dsm = elim (lookup id dsm) [
  | none ↦ dsm
  | some dsi ↦ insert id (fill_metrics dsi) dsm
]

-- `range` reads the slice once, so the appended names are not visited.
unfoldable pub append_export_paths : List String → List String → List String
append_export_paths [] metrics = metrics
append_export_paths (m ∷ ms) metrics =
    append_export_paths ms
      (if m == "export_id" then List.◌++◌ metrics ("export_path" ∷ []) else metrics)

-- The entry that `CreateDataset` stores.
unfoldable pub dataset_entry : Bool → DsInfoEntry → DsInfoEntry
unfolding append_export_paths
dataset_entry enabled entry =
    if enabled
    then record entry { metrics = append_export_paths entry.metrics entry.metrics }
    else entry

unfoldable pub create_dataset : Bool → ℤ → DsInfoEntry → PromDsMap → PromDsMap
create_dataset enabled id entry dsm =
    make_prom_metrics id (insert id (make_prom_dataset (dataset_entry enabled entry)) dsm)

unfoldable pub clear_dataset : ℤ → PromDsMap → PromDsMap
clear_dataset id dsm = remove id dsm

-- The first call: every dataset is created, whatever its id.
unfoldable pub create_all : Bool → List DsInfoEntry → PromDsMap → PromDsMap
create_all enabled [] dsm = dsm
create_all enabled (ds ∷ rest) dsm = create_all enabled rest (create_dataset enabled ds.id ds dsm)

-- `nsdMap`: the new entries by id, the last of an id.
unfoldable pub entries_by_id : List DsInfoEntry → Dict ℤ DsInfoEntry → Dict ℤ DsInfoEntry
entries_by_id [] m = m
entries_by_id (v ∷ rest) m = entries_by_id rest (insert v.id v m)

-- The body of the loop over the slots.
unfoldable pub update_slot : Bool → Dict ℤ DsInfoEntry → ℤ → PromDsMap → PromDsMap
update_slot enabled nsd id dsm = elim (lookup id dsm) [
  | some cur ↦ elim (lookup id nsd) [
    | none ↦ clear_dataset id dsm
    | some new ↦
        if cur.ds.creation_time == new.creation_time
        then dsm
        else create_dataset enabled id new (clear_dataset id dsm)
  ]
  | none ↦ elim (lookup id nsd) [ none ↦ dsm | some new ↦ create_dataset enabled id new dsm ]
]

-- `for id := 1; id <= MaxDsID; id++`, by the rounds that are left.
unfoldable pub update_slots : Bool → Dict ℤ DsInfoEntry → ℕ → ℕ → PromDsMap → PromDsMap
update_slots enabled nsd zero id dsm = dsm
update_slots enabled nsd (suc rounds) id dsm =
    update_slots enabled nsd rounds (id + 1) (update_slot enabled nsd (pos id) dsm)

unfoldable pub update_dsm : Bool → List DsInfoEntry → Option PromDsMap → PromDsMap
update_dsm enabled datasets none = create_all enabled datasets []
update_dsm enabled datasets (some dsm) =
    update_slots enabled (entries_by_id datasets []) max_ds_id 1 dsm

unfoldable pub update_datasets :
    {Float64 : Type 0} → DsInfo → PrometheusSink Float64 → PrometheusSink Float64
update_datasets di s = record s { dsm = some (update_dsm s.exports.enabled di.datasets s.dsm) }

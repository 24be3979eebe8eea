-- ===== src/Prometheus/Write/Samples.antt =====
-- What the fields of a result leave in the families.
use goppstats.Prelude.{
  String, List, [], ◌∷◌, ◌≡◌, refl, Option, none, some, Bool, true, arith, ◌==◌, string_eq,
  if◌then◌else◌, All,
}
use goppstats.Prelude.Int.{ℤ}
use goppstats.Prelude.Dict.{Dict, lookup, insert, UniqueKeys, insert-UniqueKeys}
use goppstats.Prelude.Format.{itoa}
use goppstats.Prelude.Result.{Error}
use goppstats.Api.Types.{PpStatResult}
use goppstats.Backend.{pp_fixed_fields}
use goppstats.Backend.Fields.{as_float64, fields_for_pp_stat}
use goppstats.Backend.Tags.{PtTags}
use goppstats.Prometheus.{PromMetric, Sample, Families}
use goppstats.Prometheus.Samples.{sample_at, add_metric_family}
use goppstats.Prometheus.Samples.Valid.{
  IsValid, add_metric_family-IsValid, sample_at-add_metric_family,
}
use goppstats.Prometheus.Collect.{text_or_empty}
use goppstats.Prometheus.Write.{
  metric_at, base_labels, dataset_labels, stat_labels, field_key, write_fields,
}

dataset_labels-UniqueKeys :
    (tags : PtTags) (metrics : List String) (labels : Dict String String)
    → UniqueKeys labels
    → UniqueKeys (dataset_labels tags metrics labels)
unfolding dataset_labels
dataset_labels-UniqueKeys tags [] labels u = u
dataset_labels-UniqueKeys tags (m ∷ ms) labels u =
    dataset_labels-UniqueKeys tags ms (insert m (text_or_empty (lookup m tags)) labels)
      (insert-UniqueKeys m (text_or_empty (lookup m tags)) labels u)

base_labels-UniqueKeys : (c i : String) (n : ℤ) → UniqueKeys (base_labels c i n)
unfolding base_labels
base_labels-UniqueKeys c i n =
    let labels : Dict String String = insert "node" (itoa n) (insert "cluster" c []) in
    let u : UniqueKeys labels =
      insert-UniqueKeys "node" (itoa n) (insert "cluster" c [])
        (insert-UniqueKeys "cluster" c [] tt) in
    ground (arith, u, insert-UniqueKeys i c labels u)

abbrev pub AreUnique : Option (Dict String String) → Type 0
AreUnique none = Unit
AreUnique (some labels) = UniqueKeys labels

-- The labels of a result are a Go map, whichever branch makes them.
pub stat_labels-AreUnique :
    (c i : String) (n : ℤ) (wt : Option String) (metrics : List String) (tags : PtTags)
    → AreUnique (stat_labels wt metrics tags (base_labels c i n))
unfolding stat_labels
stat_labels-AreUnique c i n wt metrics tags =
    let base = base_labels c i n in
    let labels = dataset_labels tags metrics base in
    let u = dataset_labels-UniqueKeys tags metrics base (base_labels-UniqueKeys c i n) in
    ground (
      arith,
      base_labels-UniqueKeys c i n,
      insert-UniqueKeys "pinned" "true" labels u,
      insert-UniqueKeys "pinned" "false" labels u,
    )

module _ {Float64 : Type 0} (stat : PpStatResult Float64) where
  -- The value of a field of the result.
  abbrev pub field_value : String → Option Float64
  field_value field = as_float64 (lookup field (fields_for_pp_stat stat))

  abbrev HasValue : String → Type 0
  HasValue field = (v : Float64) × (field_value field ≡ some v)

  -- Every fixed field of every result has a value, so the type assertion never fails.
  pub fields-HasValue : All HasValue pp_fixed_fields
  unfolding fields_for_pp_stat as_float64 lookup insert
  fields-HasValue = (
    (stat.bytes_in, refl),
    (
      (stat.bytes_out, refl),
      (
        (stat.reads, refl),
        (
          (stat.writes, refl),
          (
            (stat.ops, refl),
            (
              (stat.l2, refl),
              (
                (stat.l3, refl),
                (
                  (stat.cpu, refl),
                  (
                    (stat.latency_read, refl),
                    ((stat.latency_write, refl), ((stat.latency_other, refl), tt)),
                  ),
                ),
              ),
            ),
          ),
        ),
      ),
    ),
  )

  module _ (ds_name : String) (metrics : Dict String PromMetric)
      (sample_of : Float64 → Sample Float64) (id : String) where
    abbrev write : List String → Families Float64 → Option Error × Families Float64
    write = write_fields ds_name metrics stat.workload_type (fields_for_pp_stat stat) sample_of id

    abbrev add : String → Float64 → Families Float64 → Families Float64
    add field v fams =
        let m = metric_at (field_key stat.workload_type field) metrics in
        add_metric_family (sample_of v) m.name m.description id fams

    write_fields-cons :
        (field : String) (rest : List String) (fams : Families Float64) {v : Float64}
        → field_value field ≡ some v
        → write (field ∷ rest) fams ≡ write rest (add field v fams)
    unfolding write_fields
    write_fields-cons field rest fams e = rw (e, write_fields)

    pub write_fields-IsValid :
        (fields : List String) (fams : Families Float64)
        → All HasValue fields
        → ((v : Float64) → UniqueKeys (sample_of v).labels)
        → IsValid fams
        → ((write fields fams).0 ≡ none) × IsValid (write fields fams).1
    write_fields-IsValid [] fams h u valid = unfold write_fields in (refl, valid)
    write_fields-IsValid (field ∷ rest) fams h u valid =
        let m = metric_at (field_key stat.workload_type field) metrics in
        let (v, e) = h.0 in
        rw (write_fields-cons field rest fams e) (
          write_fields-IsValid rest (add field v fams) h.1 u
            (add_metric_family-IsValid (sample_of v) m.name m.description id fams (u v) valid))

    -- The value that the loop leaves in the family of a name: that of the last field of the name.
    abbrev pub written : List String → String → Option Float64
    written [] name = none
    written (field ∷ rest) name = elim (written rest name) [
      | some v ↦ some v
      | none ↦
          if (metric_at (field_key stat.workload_type field) metrics).name == name
          then field_value field
          else none
    ]

    -- A sample that the loop writes, or the one that was there.
    abbrev pub overlay : Bool → Option Float64 → Option (Sample Float64) → Option (Sample Float64)
    overlay true (some v) old = some (sample_of v)
    overlay _ _ old = old

    pub sample_at-write_fields :
        (fields : List String) (fams : Families Float64) (name i : String)
        → All HasValue fields
        → sample_at (write fields fams).1 name i
          ≡ overlay (id == i) (written fields name) (sample_at fams name i)
    sample_at-write_fields [] fams name i h = unfold write_fields in ground arith
    sample_at-write_fields (field ∷ rest) fams name i h =
        let m = metric_at (field_key stat.workload_type field) metrics in
        let (v, e) = h.0 in
        rw (write_fields-cons field rest fams e) (
          ground (
            arith,
            e,
            sample_at-write_fields rest (add field v fams) name i h.1,
            sample_at-add_metric_family (sample_of v) m.name m.description id name i fams,
          ))

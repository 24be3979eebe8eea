-- ===== src/Prometheus/Write/Stat.antt =====
-- What one result leaves in the families of its dataset.
use Prim.Native.String.{◌++◌}
use mathlib.Core.Option
use text.Mathlib.TextLemmas.{append_cancel_left}
use goppstats.Prelude.{
  ℕ, String, List, [], ◌∷◌, ◌≡◌, refl, Option, none, some, Bool, true, false, arith, ◌==◌,
  string_eq, if◌then◌else◌, All, In, contains, contains-In, All-In,
}
use goppstats.Prelude.Dict.{Dict}
use goppstats.Api.Types.{DsInfoEntry, PpStatResult}
use goppstats.Backend.{pp_fixed_fields}
use goppstats.Backend.Fields.{fields_for_pp_stat}
use goppstats.Backend.Tags.{PtTags}
use goppstats.Prometheus.{PromMetric, PromDsInternal, Sample, PrometheusSink}
use goppstats.Prometheus.Samples.{sample_at}
use goppstats.Prometheus.Samples.Valid.{IsValid}
use goppstats.Prometheus.SampleId.{create_sample_id}
use goppstats.Prometheus.Collect.{text_or_empty}
use goppstats.Prometheus.Write.{
  dataset_at, metric_at, base_labels, stat_labels, is_overflow, field_key, write_fields,
  make_sample, write_stat,
}
use goppstats.Prometheus.Write.Samples.{
  AreUnique, stat_labels-AreUnique, field_value, fields-HasValue, write_fields-IsValid, written,
  sample_at-write_fields, overlay,
}

-- The family of a field of a dataset.
unfoldable pub full_name : String → Option String → String → String
full_name base wt field = base ++ "_" ++ field_key wt field

key_inj :
    (b : Bool) (prefix f g : String)
    → (if b then prefix ++ "_" ++ f else f) ≡ (if b then prefix ++ "_" ++ g else g)
    → f ≡ g
key_inj true prefix f g h =
    append_cancel_left "_" f g (append_cancel_left prefix ("_" ++ f) ("_" ++ g) h)
key_inj false prefix f g h = h

field_key_inj : (wt : Option String) (f g : String) → field_key wt f ≡ field_key wt g → f ≡ g
unfolding field_key
field_key_inj wt f g h = key_inj (is_overflow wt) (text_or_empty wt) f g h

full_name_inj :
    (base : String) (wt : Option String) (f g : String)
    → full_name base wt f ≡ full_name base wt g
    → f ≡ g
unfolding full_name
full_name_inj base wt f g h = field_key_inj wt f g (
    append_cancel_left "_" (field_key wt f) (field_key wt g)
      (append_cancel_left base ("_" ++ field_key wt f) ("_" ++ field_key wt g) h))

-- A dataset whose metrics are named after it.
abbrev pub IsNamed : String → Option String → Dict String PromMetric → Type 0
IsNamed base wt metrics =
    All (λ g. (metric_at (field_key wt g) metrics).name ≡ full_name base wt g) pp_fixed_fields

module _ {Float64 : Type 0} (stat : PpStatResult Float64) (ds_name : String)
    (metrics : Dict String PromMetric) (sample_of : Float64 → Sample Float64)
    (id base : String) where
  written-full_name :
      (fields : List String) (f : String)
      → All
          (λ g.
            (metric_at (field_key stat.workload_type g) metrics).name
            ≡ full_name base stat.workload_type g)
          fields
      → written stat ds_name metrics sample_of id fields (full_name base stat.workload_type f)
        ≡ (if contains f fields then field_value stat f else none)
  written-full_name [] f h = refl
  written-full_name (g ∷ rest) f h = ground (
    arith,
    h.0,
    written-full_name rest f h.1,
    full_name_inj base stat.workload_type g f,
    string_eq.beq_iff g f,
    string_eq.beq_iff (full_name base stat.workload_type g) (full_name base stat.workload_type f),
  )

module _ {Float64 : Type 0} (now : ℕ) (ds : DsInfoEntry) (stat : PpStatResult Float64)
    (tags : PtTags) (s : PrometheusSink Float64) where
  abbrev pub dsi_of : PromDsInternal
  dsi_of = dataset_at ds.id s.dsm

  abbrev pub labels_of : Option (Dict String String)
  labels_of =
      stat_labels stat.workload_type dsi_of.ds.metrics tags
        (base_labels s.cluster_name s.instance_label_name stat.node)

  -- A result of an unknown workload type is skipped.
  pub write_stat-skipped : labels_of ≡ none → write_stat now ds stat tags s ≡ (none, s.fam)
  unfolding write_stat
  write_stat-skipped e = rw (e, write_stat)

  pub write_stat-written :
      {labels : Dict String String}
      → labels_of ≡ some labels
      → write_stat now ds stat tags s
        ≡ write_fields ds.name dsi_of.metrics stat.workload_type
            (fields_for_pp_stat stat)
            (make_sample labels stat.unix_time now)
            (create_sample_id tags)
            pp_fixed_fields
            s.fam
  unfolding write_stat
  write_stat-written e = rw (e, write_stat)

  -- A result makes no error, and keeps the families valid.
  pub write_stat-IsValid :
      IsValid s.fam
      → ((write_stat now ds stat tags s).0 ≡ none) × IsValid (write_stat now ds stat tags s).1
  write_stat-IsValid v =
      go labels_of
        (stat_labels-AreUnique s.cluster_name s.instance_label_name stat.node stat.workload_type
          dsi_of.ds.metrics tags)
        refl
    where
      go :
          (o : Option (Dict String String))
          → AreUnique o
          → labels_of ≡ o
          → ((write_stat now ds stat tags s).0 ≡ none) × IsValid (write_stat now ds stat tags s).1
      go none u e = rw (write_stat-skipped e) (refl, v)
      go (some labels) u e = rw (write_stat-written e) (
          write_fields-IsValid stat ds.name dsi_of.metrics (make_sample labels stat.unix_time now)
            (create_sample_id tags) pp_fixed_fields s.fam (fields-HasValue stat) (λ _. u) v)

  -- What a result leaves at any name and id.
  pub sample_at-write_stat :
      (name id : String) {labels : Dict String String}
      → labels_of ≡ some labels
      → sample_at (write_stat now ds stat tags s).1 name id
        ≡ overlay stat ds.name dsi_of.metrics
            (make_sample labels stat.unix_time now)
            (create_sample_id tags)
            (create_sample_id tags == id)
            (written stat ds.name dsi_of.metrics
              (make_sample labels stat.unix_time now)
              (create_sample_id tags)
              pp_fixed_fields
              name)
            (sample_at s.fam name id)
  sample_at-write_stat name id {labels} e = rw (write_stat-written e) (
      sample_at-write_fields stat ds.name dsi_of.metrics (make_sample labels stat.unix_time now)
        (create_sample_id tags) pp_fixed_fields s.fam name id (fields-HasValue stat))

  -- A result of a known kind leaves its value of every field in the field's family, with its labels.
  pub sample_at-full_name :
      (base field : String) {labels : Dict String String}
      → labels_of ≡ some labels
      → IsNamed base stat.workload_type dsi_of.metrics
      → In field pp_fixed_fields
      → sample_at
          (write_stat now ds stat tags s).1
          (full_name base stat.workload_type field)
          (create_sample_id tags)
        ≡ Option.map (make_sample labels stat.unix_time now) (field_value stat field)
  sample_at-full_name base field {labels} e n m =
      let sample_of : Float64 → Sample Float64 = make_sample labels stat.unix_time now in
      let id = create_sample_id tags in
      let name = full_name base stat.workload_type field in
      ground (
        arith,
        sample_at-write_stat name id e,
        string_eq.beq_iff id id,
        written-full_name stat ds.name dsi_of.metrics sample_of id base pp_fixed_fields field n,
        contains-In field pp_fixed_fields m,
        All-In (λ f. (v : Float64) × (field_value stat f ≡ some v)) pp_fixed_fields field
            (fields-HasValue stat) m,
      )

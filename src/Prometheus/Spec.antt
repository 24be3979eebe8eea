-- ===== src/Prometheus/Spec.antt =====
-- The Prometheus sink without its representation: what each slot holds, and which sample stands at each
-- metric name and sample id. There are no families, no label counts and no descriptions.
pub mod Writes
pub mod Runs
use mathlib.Core.Option
use goppstats.Prelude.{
  ℕ, String, List, [], ◌∷◌, Bool, ◌&&◌, Option, none, some, ◌==◌, string_eq, map, if◌then◌else◌,
}
use goppstats.Prelude.Int.{ℤ, int_eq}
use goppstats.Prelude.Dict.{Dict, lookup}
use goppstats.Api.Types.{DsInfo, DsInfoEntry, PpStatResult}
use goppstats.Backend.{
  f_bytes_in, f_bytes_out, f_reads, f_writes, f_ops, f_l2, f_l3, f_cpu, f_lat_read, f_lat_write,
  f_lat_other,
}
use goppstats.Backend.Exports.{ExportMap, ExportApi}
use goppstats.Backend.Tags.{PtTags, tags_for_pp_stat}
use goppstats.Prometheus.{PromMetric, PromDsInternal, PromDsMap, Sample, PrometheusSink}
use goppstats.Prometheus.Datasets.Updates.{made, slot, is_user_slot, new_entry}
use goppstats.Prometheus.SampleId.{create_sample_id}
use goppstats.Prometheus.Samples.{sample_at}
use goppstats.Prometheus.Expire.Family.{live}
use goppstats.Prometheus.Write.{
  zero_ds, metric_at, base_labels, stat_labels, field_key, make_sample,
}

-- The sample of a name and an id.
abbrev pub View : Type 0 → Type 0
View Float64 = String → String → Option (Sample Float64)

abbrev Slots : Type 0
Slots = Option (ℤ → Option PromDsInternal)

pub record AbstractSink (Float64 : Type 0) : Type 0 where
  pub cluster_name : String
  pub instance_label_name : String
  pub exports : ExportMap
  pub slots : Slots
  pub view : View Float64

abbrev pub slots_of : Option PromDsMap → Slots
slots_of none = none
slots_of (some dsm) = some (λ id. lookup id dsm)

abbrev pub abstract : {Float64 : Type 0} → PrometheusSink Float64 → AbstractSink Float64
abstract s = record {
  cluster_name = s.cluster_name;
  instance_label_name = s.instance_label_name;
  exports = s.exports;
  slots = slots_of s.dsm;
  view = sample_at s.fam;
}

-- An update of the datasets, as a rule for each slot.
abbrev pub new_slots : Bool → DsInfo → Slots → ℤ → Option PromDsInternal
new_slots enabled di none id = Option.map (made enabled) (new_entry di id)
new_slots enabled di (some old) id =
    if is_user_slot id then slot enabled (old id) (new_entry di id) else old id

abbrev pub slot_at : ℤ → Slots → PromDsInternal
slot_at id none = zero_ds
slot_at id (some slots) = elim (slots id) [ none ↦ zero_ds | some dsi ↦ dsi ]

-- The eleven statistics of a result.
abbrev pub measured : {Float64 : Type 0} → PpStatResult Float64 → List (String × Float64)
measured s =
    (f_bytes_in, s.bytes_in)
    ∷ (f_bytes_out, s.bytes_out)
    ∷ (f_reads, s.reads)
    ∷ (f_writes, s.writes)
    ∷ (f_ops, s.ops)
    ∷ (f_l2, s.l2)
    ∷ (f_l3, s.l3)
    ∷ (f_cpu, s.cpu)
    ∷ (f_lat_read, s.latency_read)
    ∷ (f_lat_write, s.latency_write)
    ∷ (f_lat_other, s.latency_other)
    ∷ []

module _ {Float64 : Type 0} where
  abbrev pub put : String → String → Sample Float64 → View Float64 → View Float64
  put name id s view n i = if name == n && id == i then some s else view n i

  unfoldable pub put_all : String → List (String × Sample Float64) → View Float64 → View Float64
  put_all id [] view = view
  put_all id ((name, s) ∷ rest) view = put_all id rest (put name id s view)

  -- The samples of a result, in the order in which they are written.
  unfoldable pub series :
      Option String
      → Dict String PromMetric
      → (Float64 → Sample Float64)
      → List (String × Float64)
      → List (String × Sample Float64)
  series workload_type metrics sample_of [] = []
  series workload_type metrics sample_of ((field, value) ∷ rest) =
      ((metric_at (field_key workload_type field) metrics).name, sample_of value)
      ∷ series workload_type metrics sample_of rest

  -- One result, written at a time: a result of an unknown workload type changes nothing.
  unfoldable pub put_stat :
      ℕ → DsInfoEntry → PpStatResult Float64 → PtTags → AbstractSink Float64 → View Float64
  put_stat now ds stat tags a =
      let dsi = slot_at ds.id a.slots in
      let labels = base_labels a.cluster_name a.instance_label_name stat.node in
      elim (stat_labels stat.workload_type dsi.ds.metrics tags labels) [
        | none ↦ a.view
        | some labels' ↦
            put_all (create_sample_id tags)
              (series stat.workload_type dsi.metrics (make_sample labels' stat.unix_time now)
                (measured stat))
              a.view
      ]

-- What can be asked of the sink: an update of its datasets, results to write, or a scrape, the last
-- two at a time.
pub data Op (Float64 : Type 0) : Type 0 where
  update : DsInfo → Op Float64
  write : ℕ → DsInfoEntry → List (PpStatResult Float64) → Op Float64
  scrape : ℕ → Op Float64

module _ {Float64 W : Type 0} (api : ExportApi W) where
  unfoldable pub put_stats :
      ℕ
      → DsInfoEntry
      → List (PpStatResult Float64)
      → AbstractSink Float64
      → W
      → AbstractSink Float64 × W
  put_stats now ds [] a w = (a, w)
  put_stats now ds (stat ∷ rest) a w =
      let (tags, exports, w') = tags_for_pp_stat api stat a.exports w in
      put_stats now ds rest (record a { exports = exports; view = put_stat now ds stat tags a }) w'

  unfoldable pub replay : List (Op Float64) → AbstractSink Float64 → W → AbstractSink Float64 × W
  replay [] a w = (a, w)
  replay (update di ∷ ops) a w =
      replay ops (record a { slots = some (new_slots a.exports.enabled di a.slots) }) w
  replay (write now ds stats ∷ ops) a w =
      let (a', w') = put_stats now ds stats a w in replay ops a' w'
  replay (scrape now ∷ ops) a w =
      replay ops (record a { view = λ name id. live now (a.view name id) }) w

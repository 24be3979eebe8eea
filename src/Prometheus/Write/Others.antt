-- ===== src/Prometheus/Write/Others.antt =====
-- One write of several results: what the results before and after one leave of it.
use goppstats.Prelude.{
  ℕ, String, List, [], ◌∷◌, ◌++◌, ◌≡◌, ◌≢◌, refl, ap, ◌∙◌, arith, string_eq, Option-cases, inl, inr,
}
use goppstats.Api.Types.{DsInfoEntry, PpStatResult}
use goppstats.Backend.Exports.{ExportMap, ExportApi}
use goppstats.Backend.Tags.{PtTags, tags_for_pp_stat}
use goppstats.Backend.Tags.Laws.{enabled-tags_for_pp_stat}
use goppstats.Prometheus.{Sample, PrometheusSink}
use goppstats.Prometheus.Samples.{sample_at}
use goppstats.Prometheus.Samples.Valid.{IsValid}
use goppstats.Prometheus.SampleId.{create_sample_id}
use goppstats.Prometheus.Write.{base_labels, stat_labels, write_pp_stats}
use goppstats.Prometheus.Write.Stat.{write_stat-IsValid}
use goppstats.Prometheus.Write.Results.{tags_of, after, next, write_pp_stats-cons}
use goppstats.Prometheus.Spec.{AbstractSink, View, abstract, put, put_all, slot_at, put_stat}
use goppstats.Prometheus.Spec.Writes.{view-write_stat}

module _ {Float64 : Type 0} where
  put_all-other :
      (id name i : String) (samples : List (String × Sample Float64)) (view : View Float64)
      → id ≢ i
      → put_all id samples view name i ≡ view name i
  unfolding put_all
  put_all-other id name i [] view other = refl
  put_all-other id name i ((n, s) ∷ rest) view other =
      put_all-other id name i rest (put n id s view) other
      ∙ ground (arith, other, string_eq.beq_iff id i)

  put_stat-other :
      (now : ℕ) (ds : DsInfoEntry) (stat : PpStatResult Float64) (tags : PtTags)
      (a : AbstractSink Float64) (name i : String)
      → create_sample_id tags ≢ i
      → put_stat now ds stat tags a name i ≡ a.view name i
  unfolding put_stat
  put_stat-other now ds stat tags a name i other =
      let dsi = slot_at ds.id a.slots in
      let base = base_labels a.cluster_name a.instance_label_name stat.node in
      elim (Option-cases (stat_labels stat.workload_type dsi.ds.metrics tags base)) [
        | inl e ↦ rw (e, put_stat) refl
        | inr (labels, e) ↦
            rw (e, put_stat) (put_all-other (create_sample_id tags) name i _ a.view other)
      ]

  -- What the results before leave of the sink, besides its families and its exports' paths.
  abbrev pub IsSameSink : PrometheusSink Float64 → PrometheusSink Float64 → Type 0
  IsSameSink s s' =
      (s'.dsm ≡ s.dsm)
      × (s'.exports.enabled ≡ s.exports.enabled)
      × (s'.cluster_name ≡ s.cluster_name)
      × (s'.instance_label_name ≡ s.instance_label_name)

module _ {Float64 W : Type 0} (api : ExportApi W) where
  -- None of these results has the sample id.
  unfoldable pub AreOthers : String → List (PpStatResult Float64) → ExportMap → W → Type 0
  AreOthers id [] exports w = Unit
  AreOthers id (stat ∷ rest) exports w =
      let (tags, exports', w') = tags_for_pp_stat api stat exports w in
      (create_sample_id tags ≢ id) × AreOthers id rest exports' w'

  module _ (now : ℕ) (ds : DsInfoEntry) where
    pub sample_at-others :
        (rest : List (PpStatResult Float64)) (s : PrometheusSink Float64) (w : W) (name id : String)
        → IsValid s.fam
        → AreOthers id rest s.exports w
        → sample_at (write_pp_stats api now ds rest s w).1.fam name id ≡ sample_at s.fam name id
    unfolding AreOthers
    sample_at-others [] s w name id v other = unfold write_pp_stats in refl
    sample_at-others (stat ∷ rest) s w name id v (n, other) =
        let tags = tags_of api now ds stat s w in
        ap (λ r. sample_at r.1.fam name id) (write_pp_stats-cons api now ds stat rest s w v)
        ∙ sample_at-others rest (after api now ds stat s w) (next api now ds stat s w) name id
            (write_stat-IsValid now ds stat tags s v).1 other
        ∙ ap (λ f. f name id) (view-write_stat now ds stat tags s)
        ∙ put_stat-other now ds stat tags (abstract s) name id n

    pub write_pp_stats-IsSameSink :
        (before : List (PpStatResult Float64)) (s : PrometheusSink Float64) (w : W)
        → IsValid s.fam
        → IsSameSink s (write_pp_stats api now ds before s w).1
    write_pp_stats-IsSameSink [] s w v = unfold write_pp_stats in (refl, refl, refl, refl)
    write_pp_stats-IsSameSink (stat ∷ rest) s w v =
        let tags = tags_of api now ds stat s w in
        let (d, x, c, i) =
          write_pp_stats-IsSameSink rest (after api now ds stat s w) (next api now ds stat s w)
            (write_stat-IsValid now ds stat tags s v).1 in
        rw (write_pp_stats-cons api now ds stat rest s w v)
          (d, x ∙ enabled-tags_for_pp_stat api stat s.exports w, c, i)

    pub write_pp_stats-append :
        (before rest : List (PpStatResult Float64)) (s : PrometheusSink Float64) (w : W)
        → IsValid s.fam
        → write_pp_stats api now ds (before ++ rest) s w
          ≡ write_pp_stats api now ds rest
              (write_pp_stats api now ds before s w).1
              (write_pp_stats api now ds before s w).2
    write_pp_stats-append [] rest s w v = unfold write_pp_stats in refl
    write_pp_stats-append (stat ∷ more) rest s w v =
        let tags = tags_of api now ds stat s w in
        rw (write_pp_stats-cons api now ds stat more s w v) (
          write_pp_stats-cons api now ds stat (more ++ rest) s w v
          ∙ write_pp_stats-append more rest (after api now ds stat s w) (next api now ds stat s w)
              (write_stat-IsValid now ds stat tags s v).1)

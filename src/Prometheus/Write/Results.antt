-- ===== src/Prometheus/Write/Results.antt =====
-- What `WritePPStats` leaves of all its results.
use goppstats.Prelude.{
  ℕ, String, List, [], ◌∷◌, ◌≡◌, refl, sym, ap, ◌∙◌, subst, Option, none, some, arith, string_eq,
  All, Option-cases, inl, inr,
}
use goppstats.Prelude.Dict.{Dict}
use goppstats.Api.Types.{DsInfoEntry, PpStatResult}
use goppstats.Backend.Exports.{ExportMap, ExportApi}
use goppstats.Backend.Tags.{PtTags, export_tags, criteria_tags, tags_for_pp_stat}
use goppstats.Backend.Tags.Laws.{tags_for_pp_stat-again}
use goppstats.Prometheus.{PromMetric, Sample, Families, PrometheusSink}
use goppstats.Backend.{pp_fixed_fields}
use goppstats.Prometheus.SampleId.{create_sample_id}
use goppstats.Prometheus.Samples.{sample_at}
use goppstats.Prometheus.Samples.Valid.{IsValid}
use goppstats.Prometheus.Write.{base_labels, stat_labels, make_sample, write_stat, write_pp_stats}
use goppstats.Prometheus.Write.Samples.{field_value, fields-HasValue, written}
use goppstats.Prometheus.Write.Stat.{
  dsi_of, labels_of, write_stat-IsValid, write_stat-skipped, sample_at-write_stat,
}

-- Two results of one workload: the same criteria, whatever their nodes and values.
pub record SameCriteria {Float64 : Type 0} (p q : PpStatResult Float64) : Type 0 where
  pub tags : (t : PtTags) → criteria_tags q t ≡ criteria_tags p t
  pub export : q.export_id ≡ p.export_id
  pub kind : q.workload_type ≡ p.workload_type

module _ {Float64 : Type 0} (p q : PpStatResult Float64) (c : SameCriteria p q) where
  tags_for_pp_stat-SameCriteria :
      {W : Type 0} (api : ExportApi W) (exports : ExportMap) (w : W)
      → tags_for_pp_stat api q exports w ≡ tags_for_pp_stat api p exports w
  unfolding tags_for_pp_stat
  tags_for_pp_stat-SameCriteria api exports w =
      cc (c.export, c.tags (export_tags api q.export_id exports w).0)

  written-SameCriteria :
      (ds_name : String) (metrics : Dict String PromMetric) (f g : Float64 → Sample Float64)
      (id name : String) (fields : List String)
      → All (λ x. (v : Float64) × (field_value q x ≡ some v)) fields
      → written q ds_name metrics g id fields name ≡ none
      → written p ds_name metrics f id fields name ≡ none
  written-SameCriteria ds_name metrics f g id name [] hq e = refl
  written-SameCriteria ds_name metrics f g id name (x ∷ rest) hq e =
      ground (arith, c.kind, hq.0, written-SameCriteria ds_name metrics f g id name rest hq.1)

labels_same :
    (wt : Option String) (metrics : List String) (tags : PtTags) (l l' : Dict String String)
    → stat_labels wt metrics tags l ≡ none
    → stat_labels wt metrics tags l' ≡ none
unfolding stat_labels
labels_same wt metrics tags l l' h = ground arith

module _ {Float64 W : Type 0} (api : ExportApi W) (now : ℕ) (ds : DsInfoEntry) where
  abbrev pub tags_of : PpStatResult Float64 → PrometheusSink Float64 → W → PtTags
  tags_of stat s w = (tags_for_pp_stat api stat s.exports w).0

  -- The sink after one result.
  abbrev pub after : PpStatResult Float64 → PrometheusSink Float64 → W → PrometheusSink Float64
  after stat s w = record s {
    exports = (tags_for_pp_stat api stat s.exports w).1;
    fam = (write_stat now ds stat (tags_of stat s w) s).1;
  }

  abbrev pub next : PpStatResult Float64 → PrometheusSink Float64 → W → W
  next stat s w = (tags_for_pp_stat api stat s.exports w).2

  pub write_pp_stats-cons :
      (stat : PpStatResult Float64) (rest : List (PpStatResult Float64))
      (s : PrometheusSink Float64) (w : W)
      → IsValid s.fam
      → write_pp_stats api now ds (stat ∷ rest) s w
        ≡ write_pp_stats api now ds rest (after stat s w) (next stat s w)
  unfolding write_pp_stats
  write_pp_stats-cons stat rest s w v =
      rw ((write_stat-IsValid now ds stat (tags_of stat s w) s v).0, write_pp_stats)

  -- `WritePPStats` reports no error, for any results, and keeps valid families valid.
  pub write_pp_stats-IsValid :
      (stats : List (PpStatResult Float64)) (s : PrometheusSink Float64) (w : W)
      → IsValid s.fam
      → ((write_pp_stats api now ds stats s w).0 ≡ none)
        × IsValid (write_pp_stats api now ds stats s w).1.fam
  write_pp_stats-IsValid [] s w v = unfold write_pp_stats in (refl, v)
  write_pp_stats-IsValid (stat ∷ rest) s w v = rw (write_pp_stats-cons stat rest s w v) (
      write_pp_stats-IsValid rest (after stat s w) (next stat s w)
        (write_stat-IsValid now ds stat (tags_of stat s w) s v).1)

  -- One result written over another of its workload.
  module _ (p q : PpStatResult Float64) (tags : PtTags) (exports : ExportMap)
      (s : PrometheusSink Float64) (c : SameCriteria p q) where
    abbrev over : PrometheusSink Float64
    over = record s { exports = exports; fam = (write_stat now ds p tags s).1 }

    skipped_too : labels_of now ds q tags s ≡ none → labels_of now ds p tags s ≡ none
    skipped_too h =
        let metrics = (dsi_of now ds q tags s).ds.metrics in
        let base = λ (stat : PpStatResult Float64).
          base_labels s.cluster_name s.instance_label_name stat.node in
        labels_same p.workload_type metrics tags (base q) (base p)
          (subst (λ t. stat_labels t metrics tags (base q) ≡ none) c.kind h)

    fam_of_skipped : labels_of now ds p tags s ≡ none → over.fam ≡ s.fam
    fam_of_skipped h = ap (λ r. r.1) (write_stat-skipped now ds p tags s h)

    write_stat-over :
        (name id : String)
        → sample_at (write_stat now ds q tags over).1 name id
          ≡ sample_at (write_stat now ds q tags s).1 name id
    write_stat-over name id = elim (Option-cases (labels_of now ds q tags s)) [
      | inl e ↦
          rw (write_stat-skipped now ds q tags over e, write_stat-skipped now ds q tags s e)
            (ap (λ f. sample_at f name id) (fam_of_skipped (skipped_too e)))
      | inr (l, e) ↦ elim (Option-cases (labels_of now ds p tags s)) [
        | inl e' ↦ cc (
          sample_at-write_stat now ds q tags over name id e,
          sample_at-write_stat now ds q tags s name id e,
          fam_of_skipped e',
        )
        | inr (l', e') ↦ ground (
          arith,
          sample_at-write_stat now ds q tags over name id e,
          sample_at-write_stat now ds q tags s name id e,
          sample_at-write_stat now ds p tags s name id e',
          written-SameCriteria p q c ds.name (dsi_of now ds q tags s).metrics
              (make_sample l' p.unix_time now) (make_sample l q.unix_time now)
              (create_sample_id tags) name pp_fixed_fields (fields-HasValue q),
        )
      ]
    ]

  pub fam_of_one :
      (q : PpStatResult Float64) (s : PrometheusSink Float64) (w : W) {tags : PtTags}
      → IsValid s.fam
      → tags_of q s w ≡ tags
      → (write_pp_stats api now ds (q ∷ []) s w).1.fam ≡ (write_stat now ds q tags s).1
  fam_of_one q s w v e =
      ap (λ r. r.1.fam) (write_pp_stats-cons q [] s w v)
      ∙ (unfold write_pp_stats in ap (λ t. (write_stat now ds q t s).1) e)

  same_tags :
      (p q : PpStatResult Float64) (s : PrometheusSink Float64) (w : W)
      → SameCriteria p q
      → tags_of q (after p s w) (next p s w) ≡ tags_of p s w
  same_tags p q s w c =
      ap (λ r. r.0)
        (tags_for_pp_stat-SameCriteria p q c api (after p s w).exports (next p s w)
          ∙ tags_for_pp_stat-again api p s.exports w)

  -- Two results of the same criteria, as of two nodes, leave from valid families what the second
  -- alone leaves: the first is lost.
  pub write_pp_stats-SameCriteria :
      (p q : PpStatResult Float64) (s : PrometheusSink Float64) (w : W) (name id : String)
      → SameCriteria p q
      → IsValid s.fam
      → sample_at (write_pp_stats api now ds (p ∷ q ∷ []) s w).1.fam name id
        ≡ sample_at (write_pp_stats api now ds (q ∷ []) s w).1.fam name id
  write_pp_stats-SameCriteria p q s w name id c v =
      let tags = tags_of p s w in
      let exports = (tags_for_pp_stat api p s.exports w).1 in
      let at = λ (fams : Families Float64). sample_at fams name id in
      ap (λ r. at r.1.fam) (write_pp_stats-cons p (q ∷ []) s w v)
      ∙ ap at (
          fam_of_one q (after p s w) (next p s w) (write_stat-IsValid now ds p tags s v).1
            (same_tags p q s w c))
      ∙ write_stat-over p q tags exports s c name id
      ∙ sym (
          ap at (
            fam_of_one q s w v
              (ap (λ r. r.0) (tags_for_pp_stat-SameCriteria p q c api s.exports w))))

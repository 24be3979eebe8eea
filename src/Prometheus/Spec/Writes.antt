-- ===== src/Prometheus/Spec/Writes.antt =====
-- The written results as the abstract sink has them.
use mathlib.Core.Path.{fun_ext}
use goppstats.Prelude.{
  ℕ, String, List, [], ◌∷◌, ◌≡◌, refl, ap, ◌∙◌, Option, none, some, string_eq, All, Option-cases,
  inl, inr, map,
}
use goppstats.Prelude.Int.{ℤ, int_eq}
use goppstats.Prelude.Dict.{Dict, lookup, insert}
use goppstats.Api.Types.{DsInfoEntry, PpStatResult}
use goppstats.Backend.Fields.{as_float64, fields_for_pp_stat}
use goppstats.Backend.Tags.{PtTags}
use goppstats.Prometheus.{PromMetric, PromDsMap, Sample, Families, PrometheusSink}
use goppstats.Prometheus.SampleId.{create_sample_id}
use goppstats.Prometheus.Samples.{sample_at, add_metric_family}
use goppstats.Prometheus.Samples.Valid.{sample_at-add_metric_family}
use goppstats.Prometheus.Write.{
  dataset_at, metric_at, field_key, make_sample, write_fields, write_stat,
}
use goppstats.Prometheus.Write.Stat.{labels_of, dsi_of, write_stat-skipped, write_stat-written}
use goppstats.Prometheus.Write.Samples.{field_value}
use goppstats.Prometheus.Spec.{
  slots_of, abstract, slot_at, measured, put, put_all, series, put_stat,
}

slot_at-slots_of : (id : ℤ) (dsm : Option PromDsMap) → slot_at id (slots_of dsm) ≡ dataset_at id dsm
unfolding dataset_at
slot_at-slots_of id none = refl
slot_at-slots_of id (some dsm) = refl

module _ {Float64 : Type 0} where
  sample_at-add :
      (s : Sample Float64) (name desc id : String) (fams : Families Float64)
      → sample_at (add_metric_family s name desc id fams) ≡ put name id s (sample_at fams)
  sample_at-add s name desc id fams =
      fun_ext λ n. fun_ext λ i. sample_at-add_metric_family s name desc id n i fams

  measured-field_value :
      (stat : PpStatResult Float64) → All (λ p. field_value stat p.0 ≡ some p.1) (measured stat)
  unfolding as_float64 fields_for_pp_stat lookup insert
  measured-field_value stat =
      (refl, (refl, (refl, (refl, (refl, (refl, (refl, (refl, (refl, (refl, (refl, tt)))))))))))

  -- The loop over the fields is the sequence of their samples.
  view-write_fields :
      (stat : PpStatResult Float64) (ds_name : String) (metrics : Dict String PromMetric)
      (sample_of : Float64 → Sample Float64) (id : String) (ps : List (String × Float64))
      (fams : Families Float64)
      → All (λ p. field_value stat p.0 ≡ some p.1) ps
      → sample_at
          (write_fields ds_name metrics stat.workload_type
            (fields_for_pp_stat stat)
            sample_of
            id
            (map (λ p. p.0) ps)
            fams).1
        ≡ put_all id (series stat.workload_type metrics sample_of ps) (sample_at fams)
  unfolding write_fields put_all series
  view-write_fields stat ds_name metrics sample_of id [] fams h = refl
  view-write_fields stat ds_name metrics sample_of id ((f, x) ∷ ps) fams (v, h) =
      let m = metric_at (field_key stat.workload_type f) metrics in
      rw (v, write_fields)
        (view-write_fields stat ds_name metrics sample_of id ps
            (add_metric_family (sample_of x) m.name m.description id fams) h
          ∙ ap (put_all id (series stat.workload_type metrics sample_of ps))
              (sample_at-add (sample_of x) m.name m.description id fams))

  -- One result.
  pub view-write_stat :
      (now : ℕ) (ds : DsInfoEntry) (stat : PpStatResult Float64) (tags : PtTags)
      (s : PrometheusSink Float64)
      → sample_at (write_stat now ds stat tags s).1 ≡ put_stat now ds stat tags (abstract s)
  unfolding put_stat
  view-write_stat now ds stat tags s =
      rw (slot_at-slots_of ds.id s.dsm, put_stat)
        (elim (Option-cases (labels_of now ds stat tags s)) [
          | inl e ↦ rw (write_stat-skipped now ds stat tags s e) (rw (e, put_stat))
          | inr (labels, e) ↦ rw (write_stat-written now ds stat tags s e) (
              rw (e, put_stat)
                (rw (slot_at-slots_of ds.id s.dsm) (
                  view-write_fields stat ds.name (dsi_of now ds stat tags s).metrics
                    (make_sample labels stat.unix_time now) (create_sample_id tags) (measured stat)
                    s.fam (measured-field_value stat))))
        ])

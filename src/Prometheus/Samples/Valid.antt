-- ===== src/Prometheus/Samples/Valid.antt =====
-- The invariant of all families, and what a written sample changes.
use goppstats.Prelude.{
  String, [], ◌∷◌, ◌≡◌, refl, Option, none, some, false, ◌&&◌, arith, ◌==◌, string_eq,
  if◌then◌else◌,
}
use goppstats.Prelude.Dict.{Dict, lookup, insert, UniqueKeys, lookup-insert, insert-UniqueKeys}
use goppstats.Prometheus.{Sample, MetricFamily, Families}
use goppstats.Prometheus.Samples.{
  is_empty, add_sample, add_metric_family, family_or_new, sample_in, sample_at,
}
use goppstats.Prometheus.Samples.Counts.{IsCounted, add_sample-IsCounted, family_or_new-IsCounted}

module _ {Float64 : Type 0} where
  -- Every family is counted right, and has a sample.
  pub record IsValid (fams : Families Float64) : Type 0 where
    pub unique : UniqueKeys fams
    pub counted :
        (name : String) (fam : MetricFamily Float64) → lookup name fams ≡ some fam → IsCounted fam
    pub nonempty :
        (name : String) (fam : MetricFamily Float64)
        → lookup name fams ≡ some fam
        → is_empty fam.samples ≡ false

  pub nil-IsValid : IsValid []
  unfolding lookup
  nil-IsValid = record {
    unique = tt;
    counted = λ name fam h. ground arith;
    nonempty = λ name fam h. ground arith;
  }

  is_empty-insert :
      (id : String) (s : Sample Float64) (m : Dict String (Sample Float64))
      → is_empty (insert id s m) ≡ false
  unfolding insert
  is_empty-insert id s [] = refl
  is_empty-insert id s ((j, t) ∷ m) = ground arith

  is_empty-add_sample :
      (fam : MetricFamily Float64) (s : Sample Float64) (id : String)
      → is_empty (add_sample fam s id).samples ≡ false
  unfolding add_sample
  is_empty-add_sample fam s id = is_empty-insert id s fam.samples

  -- A sample with a Go map of labels keeps the families valid.
  pub add_metric_family-IsValid :
      (s : Sample Float64) (name desc id : String) (fams : Families Float64)
      → UniqueKeys s.labels
      → IsValid fams
      → IsValid (add_metric_family s name desc id fams)
  unfolding add_metric_family
  add_metric_family-IsValid s name desc id fams u v =
      let fam = family_or_new desc (lookup name fams) in
      let new = add_sample fam s id in
      record {
        unique = insert-UniqueKeys name new fams v.unique;
        counted = λ j g h. ground (
          arith,
          lookup-insert name j new fams,
          v.counted j g,
          add_sample-IsCounted fam s id u
              (family_or_new-IsCounted desc (lookup name fams) (v.counted name)),
        );
        nonempty = λ j g h.
            ground
              (arith, lookup-insert name j new fams, v.nonempty j g, is_empty-add_sample fam s id);
      }

  sample_in-new :
      (desc id : String) (o : Option (MetricFamily Float64))
      → lookup id (family_or_new desc o).samples ≡ sample_in id o
  unfolding lookup
  sample_in-new desc id none = refl
  sample_in-new desc id (some fam) = refl

  -- A write sets one sample of one family.
  pub sample_at-add_metric_family :
      (s : Sample Float64) (name desc id j i : String) (fams : Families Float64)
      → sample_at (add_metric_family s name desc id fams) j i
        ≡ (if name == j && id == i then some s else sample_at fams j i)
  unfolding add_metric_family add_sample
  sample_at-add_metric_family s name desc id j i fams =
      let fam = family_or_new desc (lookup name fams) in
      ground (
        arith,
        lookup-insert name j (add_sample fam s id) fams,
        lookup-insert id i s fam.samples,
        sample_in-new desc i (lookup name fams),
        string_eq.beq_iff name j,
      )

-- ===== src/Prometheus/Samples.antt =====
-- Metric families and their samples: `addSample` and `addMetricFamily` (prometheus.go).
pub mod Counts
pub mod Valid
use goppstats.Prelude.{String, [], ◌∷◌, Option, none, some, Bool, true, false, List, string_eq}
use goppstats.Prelude.Int.{ℤ, pos, ◌+ℤ◌, ◌-ℤ◌}
use goppstats.Prelude.Dict.{Dict, lookup, insert}
use goppstats.Prometheus.{Sample, MetricFamily, Families}

-- `len(m) == 0`
abbrev pub is_empty : {A : Type 0} → List A → Bool
is_empty [] = true
is_empty (_ ∷ _) = false

-- `m[k]` of a `map[string]int`: 0 for a missing key
abbrev pub count_of : Option ℤ → ℤ
count_of none = pos 0
count_of (some n) = n

unfoldable pub bump : (ℤ → ℤ) → String → Dict String ℤ → Dict String ℤ
bump f k m = insert k (f (count_of (lookup k m))) m

abbrev pub increment : ℤ → ℤ
increment n = n +ℤ pos 1

abbrev pub decrement : ℤ → ℤ
decrement n = n -ℤ pos 1

-- `for k := range labels { m[k]++ }`, and the same with `m[k]--`
unfoldable pub bump_all : (ℤ → ℤ) → Dict String String → Dict String ℤ → Dict String ℤ
unfolding bump
bump_all f [] m = m
bump_all f ((k, v) ∷ labels) m = bump_all f labels (bump f k m)

module _ {Float64 : Type 0} where
  -- `if old, ok := fam.Samples[sampleID]; ok { … }`
  unfoldable pub discount : Option (Sample Float64) → Dict String ℤ → Dict String ℤ
  discount none label_set = label_set
  discount (some old) label_set = bump_all decrement old.labels label_set

  unfoldable pub add_sample : MetricFamily Float64 → Sample Float64 → String → MetricFamily Float64
  unfolding discount
  add_sample fam sample id = record fam {
    samples = insert id sample fam.samples;
    label_set = bump_all increment sample.labels (discount (lookup id fam.samples) fam.label_set);
  }

  abbrev pub new_family : String → MetricFamily Float64
  new_family desc = record { samples = []; label_set = []; desc = desc }

  -- The family of the name, or a new one; `s.fam` holds a pointer to it.
  abbrev pub family_or_new : String → Option (MetricFamily Float64) → MetricFamily Float64
  family_or_new desc none = new_family desc
  family_or_new desc (some fam) = fam

  unfoldable pub add_metric_family :
      Sample Float64 → String → String → String → Families Float64 → Families Float64
  add_metric_family sample name desc id fams =
      insert name (add_sample (family_or_new desc (lookup name fams)) sample id) fams

  -- The sample of an id in the family of a name.
  abbrev pub sample_in : String → Option (MetricFamily Float64) → Option (Sample Float64)
  sample_in id none = none
  sample_in id (some fam) = lookup id fam.samples

  abbrev pub sample_at : Families Float64 → String → String → Option (Sample Float64)
  sample_at fams name id = sample_in id (lookup name fams)

-- ===== src/Prometheus/Expire.antt =====
-- `Expire` (prometheus.go): samples past their deadline leave, and families left empty with them.
pub mod Family
pub mod All
use goppstats.Prelude.{ℕ, String, [], ◌∷◌, Bool, false, ◌||◌, ◌&&◌, ltb, string_eq, if◌then◌else◌}
use goppstats.Prelude.Dict.{Dict, insert, remove}
use goppstats.Prometheus.{Sample, MetricFamily, Families, PrometheusSink}
use goppstats.Prometheus.Samples.{is_empty, decrement, bump_all}

module _ {Float64 : Type 0} (now : ℕ) where
  -- `now.After(sample.Expiration)`
  abbrev pub expired : Sample Float64 → Bool
  expired s = ltb s.expiration now

  unfoldable pub drop_sample : String → Sample Float64 → MetricFamily Float64 → MetricFamily Float64
  drop_sample key s fam = record fam {
    samples = remove key fam.samples;
    label_set = bump_all decrement s.labels fam.label_set;
  }

  -- The loop over the samples. The flag says whether the family has been deleted from `s.fam`; the
  -- samples visited are those that the family had when the loop began.
  unfoldable pub expire_samples :
      Dict String (Sample Float64) → MetricFamily Float64 → Bool → MetricFamily Float64 × Bool
  unfolding drop_sample
  expire_samples [] fam gone = (fam, gone)
  expire_samples ((key, s) ∷ rest) fam gone =
      let fam' = if expired s then drop_sample key s fam else fam in
      expire_samples rest fam' (gone || (expired s && is_empty fam'.samples))

  unfoldable pub expire_family : MetricFamily Float64 → MetricFamily Float64 × Bool
  unfolding expire_samples
  expire_family fam = expire_samples fam.samples fam false

  -- `s.fam` holds pointers, so a changed family is the entry of its name, unless it was deleted.
  unfoldable pub keep_family :
      String → MetricFamily Float64 × Bool → Families Float64 → Families Float64
  keep_family name (fam, gone) fams = if gone then remove name fams else insert name fam fams

  unfoldable pub expire_families : Families Float64 → Families Float64 → Families Float64
  unfolding expire_family keep_family
  expire_families [] fams = fams
  expire_families ((name, fam) ∷ rest) fams =
      expire_families rest (keep_family name (expire_family fam) fams)

  unfoldable pub expire : PrometheusSink Float64 → PrometheusSink Float64
  unfolding expire_families
  expire s = record s { fam = expire_families s.fam s.fam }

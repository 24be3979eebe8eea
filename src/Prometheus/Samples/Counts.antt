-- ===== src/Prometheus/Samples/Counts.antt =====
-- The label counts of a family and its samples.
use goppstats.Prelude.{
  String, [], ◌∷◌, ◌≡◌, refl, Option, none, some, Bool, arith, ◌==◌, string_eq, if◌then◌else◌,
}
use goppstats.Prelude.Int.{ℤ, pos, ◌+ℤ◌, ◌-ℤ◌}
use goppstats.Prelude.Dict.{
  Dict, lookup, has, weight, UniqueKeys, count_by, lookup-insert, insert-UniqueKeys,
  count_by-insert,
}
use goppstats.Prometheus.{Sample, MetricFamily}
use goppstats.Prometheus.Samples.{
  count_of, bump, increment, decrement, bump_all, discount, add_sample, new_family, family_or_new,
}

count-bump :
    (f : ℤ → ℤ) (j k : String) (m : Dict String ℤ)
    → count_of (lookup k (bump f j m))
      ≡ (if j == k then f (count_of (lookup k m)) else count_of (lookup k m))
unfolding bump
count-bump f j k m =
    ground (arith, lookup-insert j k (f (count_of (lookup j m))) m, string_eq.beq_iff j k)

-- Each label of the map is bumped once, and no other.
pub count-bump_all :
    (f : ℤ → ℤ) (labels : Dict String String) (m : Dict String ℤ) (k : String)
    → UniqueKeys labels
    → count_of (lookup k (bump_all f labels m))
      ≡ (if has k labels then f (count_of (lookup k m)) else count_of (lookup k m))
unfolding bump_all lookup
count-bump_all f [] m k u = refl
count-bump_all f ((j, v) ∷ labels) m k u =
    ground
      (arith, count-bump_all f labels (bump f j m) k u.1, count-bump f j k m, string_eq.beq_iff j k)

pub bump_all-UniqueKeys :
    (f : ℤ → ℤ) (labels : Dict String String) (m : Dict String ℤ)
    → UniqueKeys m
    → UniqueKeys (bump_all f labels m)
unfolding bump_all
bump_all-UniqueKeys f [] m u = u
bump_all-UniqueKeys f ((k, v) ∷ labels) m u =
    bump_all-UniqueKeys f labels (bump f k m)
      (unfold bump in insert-UniqueKeys k (f (count_of (lookup k m))) m u)

module _ {Float64 : Type 0} where
  abbrev pub carries : String → Sample Float64 → Bool
  carries k s = has k s.labels

  -- The maps are Go maps, and every label is counted as often as a sample carries it.
  pub record IsCounted (fam : MetricFamily Float64) : Type 0 where
    pub unique : UniqueKeys fam.samples
    pub set_unique : UniqueKeys fam.label_set
    pub labels_unique :
        (id : String) (s : Sample Float64) → lookup id fam.samples ≡ some s → UniqueKeys s.labels
    pub counted :
        (k : String) → count_of (lookup k fam.label_set) ≡ pos (count_by (carries k) fam.samples)

  pub new_family-IsCounted : (desc : String) → IsCounted (new_family desc)
  unfolding lookup count_by
  new_family-IsCounted desc = record {
    unique = tt;
    set_unique = tt;
    labels_unique = λ id s h. ground arith;
    counted = λ k. refl;
  }

  -- What is taken off for the sample that is replaced.
  count-discount :
      (o : Option (Sample Float64)) (m : Dict String ℤ) (k : String)
      → ((s : Sample Float64) → o ≡ some s → UniqueKeys s.labels)
      → count_of (lookup k (discount o m)) +ℤ pos (weight (carries k) o) ≡ count_of (lookup k m)
  unfolding discount ◌+ℤ◌ ◌-ℤ◌
  count-discount none m k u = ground arith
  count-discount (some old) m k u =
      ground (arith, count-bump_all decrement old.labels m k (u old refl))

  discount-UniqueKeys :
      (o : Option (Sample Float64)) (m : Dict String ℤ) → UniqueKeys m → UniqueKeys (discount o m)
  unfolding discount
  discount-UniqueKeys none m u = u
  discount-UniqueKeys (some old) m u = bump_all-UniqueKeys decrement old.labels m u

  -- A sample of distinct labels, written under a new id or over another sample, keeps each label's
  -- count the number of samples that carry it.
  pub add_sample-IsCounted :
      (fam : MetricFamily Float64) (s : Sample Float64) (id : String)
      → UniqueKeys s.labels
      → IsCounted fam
      → IsCounted (add_sample fam s id)
  unfolding add_sample ◌+ℤ◌ ◌-ℤ◌
  add_sample-IsCounted fam s id u c = record {
    unique = insert-UniqueKeys id s fam.samples c.unique;
    set_unique =
        bump_all-UniqueKeys increment s.labels (discount (lookup id fam.samples) fam.label_set)
          (discount-UniqueKeys (lookup id fam.samples) fam.label_set c.set_unique);
    labels_unique = λ j t h. ground (arith, lookup-insert id j s fam.samples, c.labels_unique j t);
    counted = λ k. ground (
      arith,
      c.counted k,
      count-bump_all increment s.labels (discount (lookup id fam.samples) fam.label_set) k u,
      count-discount (lookup id fam.samples) fam.label_set k (c.labels_unique id),
      count_by-insert (carries k) id s fam.samples,
    );
  }

  pub family_or_new-IsCounted :
      (desc : String) (o : Option (MetricFamily Float64))
      → ((fam : MetricFamily Float64) → o ≡ some fam → IsCounted fam)
      → IsCounted (family_or_new desc o)
  family_or_new-IsCounted desc none h = new_family-IsCounted desc
  family_or_new-IsCounted desc (some fam) h = h fam refl

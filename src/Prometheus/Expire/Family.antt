-- ===== src/Prometheus/Expire/Family.antt =====
-- What `Expire` leaves of one family.
use goppstats.Prelude.{
  ℕ, String, [], ◌∷◌, ◌≡◌, refl, sym, Option, none, some, Bool, false, ◌||◌, ◌&&◌, arith, ◌==◌,
  string_eq, if◌then◌else◌, Bool-cases, inl, inr,
}
use goppstats.Prelude.Int.{◌+ℤ◌, ◌-ℤ◌}
use goppstats.Prelude.Dict.{
  Dict, lookup, has, UniqueKeys, lookup-remove, remove-UniqueKeys, count_by-remove,
}
use goppstats.Prometheus.{Sample, MetricFamily}
use goppstats.Prometheus.Samples.{is_empty, decrement}
use goppstats.Prometheus.Samples.Counts.{IsCounted, carries, count-bump_all, bump_all-UniqueKeys}
use goppstats.Prometheus.Expire.{expired, drop_sample, expire_samples, expire_family}

module _ {Float64 : Type 0} (now : ℕ) where
  -- The entries still to be visited are in the family.
  abbrev Remain : Dict String (Sample Float64) → MetricFamily Float64 → Type 0
  Remain entries fam =
      (id : String) (s : Sample Float64)
      → lookup id entries ≡ some s
      → lookup id fam.samples ≡ some s

  -- What a family keeps of a sample.
  abbrev pub live : Option (Sample Float64) → Option (Sample Float64)
  live none = none
  live (some s) = if expired now s then none else some s

  drop_sample-IsCounted :
      (key : String) (s : Sample Float64) (fam : MetricFamily Float64)
      → lookup key fam.samples ≡ some s
      → IsCounted fam
      → IsCounted (drop_sample now key s fam)
  unfolding drop_sample ◌+ℤ◌ ◌-ℤ◌
  drop_sample-IsCounted key s fam e c = record {
    unique = remove-UniqueKeys key fam.samples c.unique;
    set_unique = bump_all-UniqueKeys decrement s.labels fam.label_set c.set_unique;
    labels_unique = λ j t h. ground (arith, lookup-remove key j fam.samples, c.labels_unique j t);
    counted = λ k. ground (
      arith,
      c.counted k,
      e,
      count-bump_all decrement s.labels fam.label_set k (c.labels_unique key s e),
      count_by-remove (carries k) key fam.samples c.unique,
    );
  }

  abbrev step : String → Sample Float64 → MetricFamily Float64 → MetricFamily Float64
  step key s fam = if expired now s then drop_sample now key s fam else fam

  step-IsCounted :
      (key : String) (s : Sample Float64) (fam : MetricFamily Float64)
      → lookup key fam.samples ≡ some s
      → IsCounted fam
      → IsCounted (step key s fam)
  step-IsCounted key s fam e c = elim (Bool-cases (expired now s)) [
    | inl t ↦ rw t (drop_sample-IsCounted key s fam e c)
    | inr f ↦ rw f c
  ]

  lookup-step :
      (key j : String) (s : Sample Float64) (fam : MetricFamily Float64)
      → lookup j (step key s fam).samples
        ≡ (if expired now s && key == j then none else lookup j fam.samples)
  unfolding drop_sample
  lookup-step key j s fam = ground (arith, lookup-remove key j fam.samples)

  step-Remain :
      (key : String) (s : Sample Float64) (rest : Dict String (Sample Float64))
      (fam : MetricFamily Float64)
      → UniqueKeys ((key, s) ∷ rest)
      → Remain ((key, s) ∷ rest) fam
      → Remain rest (step key s fam)
  unfolding lookup
  step-Remain key s rest fam u r j t h =
      ground (arith, lookup-step key j s fam, r j t, string_eq.beq_iff key j)

  head_remains :
      (key : String) (s : Sample Float64) (rest : Dict String (Sample Float64))
      (fam : MetricFamily Float64)
      → Remain ((key, s) ∷ rest) fam
      → lookup key fam.samples ≡ some s
  unfolding lookup
  head_remains key s rest fam r = ground (arith, r key s, string_eq.beq_iff key key)

  expire_samples-IsCounted :
      (entries : Dict String (Sample Float64)) (fam : MetricFamily Float64) (gone : Bool)
      → UniqueKeys entries
      → Remain entries fam
      → IsCounted fam
      → IsCounted (expire_samples now entries fam gone).0
  unfolding expire_samples
  expire_samples-IsCounted [] fam gone u r c = c
  expire_samples-IsCounted ((key, s) ∷ rest) fam gone u r c =
      expire_samples-IsCounted rest (step key s fam)
        (gone || (expired now s && is_empty (step key s fam).samples)) u.1
        (step-Remain key s rest fam u r)
        (step-IsCounted key s fam (head_remains key s rest fam r) c)

  lookup-expire_samples :
      (entries : Dict String (Sample Float64)) (fam : MetricFamily Float64) (gone : Bool)
      (j : String)
      → UniqueKeys entries
      → Remain entries fam
      → lookup j (expire_samples now entries fam gone).0.samples
        ≡ (if has j entries then live (lookup j fam.samples) else lookup j fam.samples)
  unfolding expire_samples lookup
  lookup-expire_samples [] fam gone j u r = refl
  lookup-expire_samples ((key, s) ∷ rest) fam gone j u r = ground (
    arith,
    lookup-expire_samples rest (step key s fam)
        (gone || (expired now s && is_empty (step key s fam).samples)) j u.1
        (step-Remain key s rest fam u r),
    lookup-step key j s fam,
    head_remains key s rest fam r,
    string_eq.beq_iff key j,
  )

  -- Of an expired family the samples whose deadline has not passed are left, and no other.
  pub lookup-expire_family :
      (fam : MetricFamily Float64) (j : String)
      → IsCounted fam
      → lookup j (expire_family now fam).0.samples ≡ live (lookup j fam.samples)
  unfolding expire_family
  lookup-expire_family fam j c =
      ground (arith, lookup-expire_samples fam.samples fam false j c.unique (λ id s h. h))

  pub expire_family-IsCounted :
      (fam : MetricFamily Float64) → IsCounted fam → IsCounted (expire_family now fam).0
  unfolding expire_family
  expire_family-IsCounted fam c =
      expire_samples-IsCounted fam.samples fam false c.unique (λ id s h. h) c

  nonempty_of_lookup :
      (m : Dict String (Sample Float64)) (k : String) (s : Sample Float64)
      → lookup k m ≡ some s
      → is_empty m ≡ false
  unfolding lookup
  nonempty_of_lookup [] k s h = cc
  nonempty_of_lookup (e ∷ m) k s h = refl

  gone-step :
      (key : String) (s : Sample Float64) (fam : MetricFamily Float64) (gone : Bool)
      → lookup key fam.samples ≡ some s
      → gone ≡ is_empty fam.samples
      → (gone || (expired now s && is_empty (step key s fam).samples))
        ≡ is_empty (step key s fam).samples
  gone-step key s fam gone e g = ground (arith, nonempty_of_lookup fam.samples key s e)

  gone-expire_samples :
      (entries : Dict String (Sample Float64)) (fam : MetricFamily Float64) (gone : Bool)
      → UniqueKeys entries
      → Remain entries fam
      → gone ≡ is_empty fam.samples
      → (expire_samples now entries fam gone).1
        ≡ is_empty (expire_samples now entries fam gone).0.samples
  unfolding expire_samples
  gone-expire_samples [] fam gone u r g = g
  gone-expire_samples ((key, s) ∷ rest) fam gone u r g =
      gone-expire_samples rest (step key s fam)
        (gone || (expired now s && is_empty (step key s fam).samples)) u.1
        (step-Remain key s rest fam u r)
        (gone-step key s fam gone (head_remains key s rest fam r) g)

  -- A family that had samples is deleted exactly when it has none left.
  pub gone-expire_family :
      (fam : MetricFamily Float64)
      → IsCounted fam
      → is_empty fam.samples ≡ false
      → (expire_family now fam).1 ≡ is_empty (expire_family now fam).0.samples
  unfolding expire_family
  gone-expire_family fam c n =
      gone-expire_samples fam.samples fam false c.unique (λ id s h. h) (sym n)

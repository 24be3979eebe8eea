-- ===== src/Prometheus/Expire/All.antt =====
-- What `Expire` leaves of the families.
use goppstats.Prelude.{
  ℕ, String, [], ◌∷◌, ◌≡◌, refl, sym, ◌∙◌, Option, none, some, Bool, true, false, arith, ◌==◌,
  string_eq, if◌then◌else◌,
}
use goppstats.Prelude.Dict.{
  Dict, lookup, has, UniqueKeys, lookup-remove, lookup-insert, remove-UniqueKeys, insert-UniqueKeys,
}
use goppstats.Prometheus.{Sample, MetricFamily, Families, PrometheusSink}
use goppstats.Prometheus.Samples.Counts.{IsCounted}
use goppstats.Prometheus.Samples.Valid.{IsValid}
use goppstats.Prometheus.Samples.{is_empty, sample_in, sample_at}
use goppstats.Prometheus.Expire.{expire, expire_family, keep_family, expire_families}
use goppstats.Prometheus.Expire.Family.{
  live, lookup-expire_family, expire_family-IsCounted, gone-expire_family,
}

module _ {Float64 : Type 0} (now : ℕ) where
  -- A family less its expired samples, or nothing if all have.
  abbrev live_family : Option (MetricFamily Float64) → Option (MetricFamily Float64)
  live_family none = none
  live_family (some fam) =
      if (expire_family now fam).1 then none else some (expire_family now fam).0

  lookup-keep_family :
      (name j : String) (r : MetricFamily Float64 × Bool) (fams : Families Float64)
      → lookup j (keep_family now name r fams)
        ≡ (if name == j then (if r.1 then none else some r.0) else lookup j fams)
  unfolding keep_family
  lookup-keep_family name j (fam, gone) fams =
      ground (arith, lookup-remove name j fams, lookup-insert name j fam fams)

  keep_family-UniqueKeys :
      (name : String) (r : MetricFamily Float64 × Bool) (fams : Families Float64)
      → UniqueKeys fams
      → UniqueKeys (keep_family now name r fams)
  unfolding keep_family
  keep_family-UniqueKeys name (fam, true) fams u = remove-UniqueKeys name fams u
  keep_family-UniqueKeys name (fam, false) fams u = insert-UniqueKeys name fam fams u

  abbrev Remain : Families Float64 → Families Float64 → Type 0
  Remain entries fams =
      (name : String) (fam : MetricFamily Float64)
      → lookup name entries ≡ some fam
      → lookup name fams ≡ some fam

  step-Remain :
      (name : String) (fam : MetricFamily Float64) (rest fams : Families Float64)
      → UniqueKeys ((name, fam) ∷ rest)
      → Remain ((name, fam) ∷ rest) fams
      → Remain rest (keep_family now name (expire_family now fam) fams)
  unfolding lookup
  step-Remain name fam rest fams u r j g h = ground (
    arith,
    lookup-keep_family name j (expire_family now fam) fams,
    r j g,
    string_eq.beq_iff name j,
  )

  head_remains :
      (name : String) (fam : MetricFamily Float64) (rest fams : Families Float64)
      → Remain ((name, fam) ∷ rest) fams
      → lookup name fams ≡ some fam
  unfolding lookup
  head_remains name fam rest fams r = ground (arith, r name fam, string_eq.beq_iff name name)

  lookup-expire_families :
      (entries fams : Families Float64) (j : String)
      → UniqueKeys entries
      → Remain entries fams
      → lookup j (expire_families now entries fams)
        ≡ (if has j entries then live_family (lookup j fams) else lookup j fams)
  unfolding expire_families lookup
  lookup-expire_families [] fams j u r = refl
  lookup-expire_families ((name, fam) ∷ rest) fams j u r = ground (
    arith,
    lookup-expire_families rest (keep_family now name (expire_family now fam) fams) j u.1
        (step-Remain name fam rest fams u r),
    lookup-keep_family name j (expire_family now fam) fams,
    head_remains name fam rest fams r,
    string_eq.beq_iff name j,
  )

  expire_families-UniqueKeys :
      (entries fams : Families Float64)
      → UniqueKeys fams
      → UniqueKeys (expire_families now entries fams)
  unfolding expire_families
  expire_families-UniqueKeys [] fams u = u
  expire_families-UniqueKeys ((name, fam) ∷ rest) fams u =
      expire_families-UniqueKeys rest (keep_family now name (expire_family now fam) fams)
        (keep_family-UniqueKeys name (expire_family now fam) fams u)

  -- Each family is expired on its own.
  lookup-expire :
      (fams : Families Float64) (j : String)
      → UniqueKeys fams
      → lookup j (expire_families now fams fams) ≡ live_family (lookup j fams)
  lookup-expire fams j u = ground (arith, lookup-expire_families fams fams j u (λ name fam h. h))

  live_family_inv :
      (o : Option (MetricFamily Float64)) (fam : MetricFamily Float64)
      → live_family o ≡ some fam
      → (old : MetricFamily Float64) × (o ≡ some old)
        × ((expire_family now old).1 ≡ false)
        × (fam ≡ (expire_family now old).0)
  live_family_inv none fam h = cc
  live_family_inv (some old) fam h = (old, refl, ground arith, ground arith)

  -- Valid families stay valid.
  pub expire-IsValid :
      (fams : Families Float64) → IsValid fams → IsValid (expire_families now fams fams)
  expire-IsValid fams v = record {
    unique = expire_families-UniqueKeys fams fams v.unique;
    counted = λ name fam h.
        let (old, e, kept, same) =
          live_family_inv (lookup name fams) fam (sym (lookup-expire fams name v.unique) ∙ h) in
        rw same (expire_family-IsCounted now old (v.counted name old e));
    nonempty = λ name fam h.
        let (old, e, kept, same) =
          live_family_inv (lookup name fams) fam (sym (lookup-expire fams name v.unique) ∙ h) in
        rw same
          (sym (gone-expire_family now old (v.counted name old e) (v.nonempty name old e)) ∙ kept);
  }

  lookup-nil_of_is_empty :
      (m : Dict String (Sample Float64)) (id : String) → is_empty m ≡ true → lookup id m ≡ none
  unfolding lookup
  lookup-nil_of_is_empty [] id h = refl
  lookup-nil_of_is_empty (e ∷ m) id h = cc

  sample_at-live_family :
      (o : Option (MetricFamily Float64)) (id : String)
      → ((fam : MetricFamily Float64) → o ≡ some fam → IsCounted fam)
      → ((fam : MetricFamily Float64) → o ≡ some fam → is_empty fam.samples ≡ false)
      → sample_in id (live_family o) ≡ live now (sample_in id o)
  sample_at-live_family none id c n = refl
  sample_at-live_family (some fam) id c n = ground (
    arith,
    lookup-expire_family now fam id (c fam refl),
    gone-expire_family now fam (c fam refl) (n fam refl),
    lookup-nil_of_is_empty (expire_family now fam).0.samples id,
  )

  -- From valid families `Expire` takes away exactly the samples whose deadline has passed, and leaves
  -- valid families.
  pub expire_lem :
      (s : PrometheusSink Float64) (name id : String)
      → IsValid s.fam
      → IsValid (expire now s).fam
        × (sample_at (expire now s).fam name id ≡ live now (sample_at s.fam name id))
  unfolding expire
  expire_lem s name id v = (
    expire-IsValid s.fam v,
    rw (lookup-expire s.fam name v.unique)
        (sample_at-live_family (lookup name s.fam) id (v.counted name) (v.nonempty name)),
  )

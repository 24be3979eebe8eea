-- ===== src/Prometheus/Collect/Sent.antt =====
-- Which samples a scrape is answered with.
use goppstats.Prelude.{
  ℕ, String, List, [], ◌∷◌, ◌≡◌, ◌↔◌, refl, sym, ap, subst, Option, none, some, false, arith, ◌==◌,
  string_eq, In, In-append_left, In-append_right, Bool-cases, inl, inr, length, length-map,
}
use goppstats.Prelude.Int.{ℤ}
use goppstats.Prelude.Result.{Result, ok, err}
use goppstats.Prelude.Dict.{Dict, lookup}
use goppstats.Prometheus.{Sample, MetricFamily, Families, PrometheusSink}
use goppstats.Prometheus.Samples.{sample_in, sample_at}
use goppstats.Prometheus.Samples.Valid.{IsValid}
use goppstats.Prometheus.Expire.{expired, expire}
use goppstats.Prometheus.Expire.All.{expire_lem}
use goppstats.Prometheus.Collect.{
  MetricArgs, metric_args, label_names, label_values, text_or_empty, send, collect_samples,
  collect_families, collect,
}
use goppstats.Prometheus.Collect.Labels.{Distinct, IsCarried, label_names_lem}

-- What is sent for a sample of a family.
abbrev pub args_of :
    {Float64 : Type 0} → String → MetricFamily Float64 → Sample Float64 → MetricArgs Float64
args_of name fam s = metric_args name fam.desc (label_names fam.label_set) s

-- Each label name has its value, in the same place.
length-args_of :
    {Float64 : Type 0} (name : String) (fam : MetricFamily Float64) (s : Sample Float64)
    → length (args_of name fam s).values ≡ length (args_of name fam s).names
unfolding metric_args label_values
length-args_of name fam s =
    length-map (λ k. text_or_empty (lookup k s.labels)) (label_names fam.label_set)

names-args_of :
    {Float64 : Type 0} (name : String) (fam : MetricFamily Float64) (s : Sample Float64)
    → (args_of name fam s).names ≡ label_names fam.label_set
unfolding metric_args
names-args_of name fam s = refl

sample_in_inv :
    {Float64 : Type 0} (o : Option (MetricFamily Float64)) (id : String) {s : Sample Float64}
    → sample_in id o ≡ some s
    → (fam : MetricFamily Float64) × (o ≡ some fam) × (lookup id fam.samples ≡ some s)
sample_in_inv none id h = cc
sample_in_inv (some fam) id h = (fam, refl, h)

module _ {Float64 Metric : Type 0} (new_const_metric : MetricArgs Float64 → Result Metric)
    (with_timestamp : ℤ → Metric → Metric) where
  In-send :
      (timestamp : ℤ) (r : Result Metric) (rest : List Metric) (a : Metric)
      → In a rest
      → In a (send new_const_metric with_timestamp timestamp r rest)
  unfolding send
  In-send timestamp (ok m) rest a h = inr h
  In-send timestamp (err e) rest a h = h

  In-send_self :
      (timestamp : ℤ) (r : Result Metric) (rest : List Metric) (m : Metric)
      → r ≡ ok m
      → In (with_timestamp timestamp m) (send new_const_metric with_timestamp timestamp r rest)
  unfolding send
  In-send_self timestamp (ok n) rest m h = inl (ap (with_timestamp timestamp) (ground arith))
  In-send_self timestamp (err e) rest m h = cc

  abbrev sent : String → MetricFamily Float64 → Dict String (Sample Float64) → List Metric
  sent name fam samples =
      collect_samples new_const_metric with_timestamp name fam.desc (label_names fam.label_set)
        samples

  In-collect_samples :
      (name : String) (fam : MetricFamily Float64) (samples : Dict String (Sample Float64))
      (id : String) (s : Sample Float64) (m : Metric)
      → lookup id samples ≡ some s
      → new_const_metric (args_of name fam s) ≡ ok m
      → In (with_timestamp s.timestamp m) (sent name fam samples)
  unfolding collect_samples lookup
  In-collect_samples name fam [] id s m h a = ground arith
  In-collect_samples name fam ((j, t) ∷ rest) id s m h a = elim (Bool-cases (j == id)) [
    | inl e ↦
        subst
          (λ x. In (with_timestamp s.timestamp m) (
            send new_const_metric with_timestamp x.timestamp (new_const_metric (args_of name fam x))
              (sent name fam rest)))
          {x = s} {y = t} (ground (arith, e))
          (In-send_self s.timestamp (new_const_metric (args_of name fam s)) (sent name fam rest) m
            a)
    | inr e ↦
        In-send t.timestamp (new_const_metric (args_of name fam t)) (sent name fam rest)
          (with_timestamp s.timestamp m)
          (In-collect_samples name fam rest id s m (ground (arith, e)) a)
  ]

  In-collect_families :
      (fams : Families Float64) (name id : String) (fam : MetricFamily Float64) (s : Sample Float64)
      (m : Metric)
      → lookup name fams ≡ some fam
      → lookup id fam.samples ≡ some s
      → new_const_metric (args_of name fam s) ≡ ok m
      → In (with_timestamp s.timestamp m) (collect_families new_const_metric with_timestamp fams)
  unfolding collect_families lookup
  In-collect_families [] name id fam s m f h a = ground arith
  In-collect_families ((n, g) ∷ rest) name id fam s m f h a = elim (Bool-cases (n == name)) [
    | inl e ↦
        In-append_left (with_timestamp s.timestamp m) (sent n g g.samples)
          (collect_families new_const_metric with_timestamp rest)
          (subst (λ x. In (with_timestamp s.timestamp m) (sent x g g.samples))
            (sym ((string_eq.beq_iff n name).0 e))
            (subst (λ x. In (with_timestamp s.timestamp m) (sent name x x.samples)) {x = fam}
              {y = g} (ground (arith, e)) (In-collect_samples name fam fam.samples id s m h a)))
    | inr e ↦
        In-append_right (with_timestamp s.timestamp m) (sent n g g.samples)
          (collect_families new_const_metric with_timestamp rest)
          (In-collect_families rest name id fam s m (ground (arith, e)) h a)
  ]

  -- The client library makes a metric of names that it allows, whose label names are distinct and
  -- have a value each.
  abbrev pub Accepts : (MetricArgs Float64 → Type 0) → Type 0
  Accepts IsAllowed =
      (args : MetricArgs Float64)
      → IsAllowed args
      → Distinct args.names
      → length args.values ≡ length args.names
      → (m : Metric) × (new_const_metric args ≡ ok m)

  -- If the client library makes metrics of the names and labels that it allows, then a sample of valid
  -- families whose deadline has not passed is in the answer to a scrape, if the library allows what is
  -- sent for it: it is described by the family that it has after the expired samples have left, which
  -- still has the sample, and with the labels that the samples left in that family carry, and no others.
  pub collect-sends :
      (IsAllowed : MetricArgs Float64 → Type 0) (now : ℕ) (s : PrometheusSink Float64)
      (name id : String) (sample : Sample Float64)
      → Accepts IsAllowed
      → ((fam : MetricFamily Float64)
          → lookup name (expire now s).fam ≡ some fam
          → IsAllowed (args_of name fam sample))
      → IsValid s.fam
      → sample_at s.fam name id ≡ some sample
      → expired now sample ≡ false
      → (fam : MetricFamily Float64) × (m : Metric) × (lookup name (expire now s).fam ≡ some fam)
        × (lookup id fam.samples ≡ some sample)
        × ((k : String) → In k (args_of name fam sample).names ↔ IsCarried fam k)
        × (new_const_metric (args_of name fam sample) ≡ ok m)
        × In (with_timestamp sample.timestamp m) (collect new_const_metric with_timestamp now s).0
  unfolding collect
  collect-sends IsAllowed now s name id sample accepts allowed v h live =
      let (valid, at) = expire_lem now s name id v in
      let kept : sample_at (expire now s).fam name id ≡ some sample = ground (arith, at, h, live) in
      let (fam, f, i) = sample_in_inv (lookup name (expire now s).fam) id kept in
      let (m, a) =
        accepts (args_of name fam sample) (allowed fam f)
          (rw (names-args_of name fam sample) (label_names_lem fam (valid.counted name fam f)).0)
          (length-args_of name fam sample) in
      let labelled : (k : String) → In k (args_of name fam sample).names ↔ IsCarried fam k =
        rw (names-args_of name fam sample) (label_names_lem fam (valid.counted name fam f)).1 in
      (fam, m, f, i, labelled, a, In-collect_families (expire now s).fam name id fam sample m f i a)

-- ===== src/Examples/Families.antt =====
-- Families with a sample, and the answer to a scrape.
use goppstats.Prelude.{
  ℕ, contains, subst, arith, if◌then◌else◌, Option, String, [], ◌≡◌, refl, ◌↔◌, false, none, some,
  string_eq, In,
}
use goppstats.Prelude.Result.{Result, ok, err, message}
use goppstats.Prelude.Int.{◌+ℤ◌}
use goppstats.Prelude.Dict.{lookup, insert, UniqueKeys}
use goppstats.Prometheus.{Sample, MetricFamily, PrometheusSink}
use goppstats.Prometheus.Samples.{
  bump_all, bump, discount, add_sample, new_family, add_metric_family, sample_at,
}
use goppstats.Prometheus.Samples.Counts.{new_family-IsCounted, add_sample-IsCounted}
use goppstats.Prometheus.Samples.Valid.{IsValid, nil-IsValid, add_metric_family-IsValid}
use goppstats.Prometheus.Expire.{
  expire, expire_families, keep_family, expire_family, expire_samples,
}
use goppstats.Prometheus.Expire.All.{expire_lem}
use goppstats.Prometheus.Collect.{MetricArgs, metric_args, collect, label_names}
use goppstats.Prometheus.Collect.Labels.{Distinct, IsCarried, label_names_lem}
use goppstats.Prometheus.Collect.Sent.{args_of, collect-sends}
use goppstats.Examples.Data.{sink, ops_family, alice_id, alice_labels, ops_sample}

alice_labels_unique : (node : String) → UniqueKeys (alice_labels node)
unfolding lookup
alice_labels_unique node = (refl, (refl, (refl, (refl, (refl, (refl, tt))))))

abbrev family : MetricFamily ℕ
family = new_family "pp dataset 1, metric ops"

abbrev full : PrometheusSink ℕ
full = record sink { fam = add_metric_family ops_sample ops_family "" alice_id [] }

full-IsValid : IsValid full.fam
full-IsValid =
    add_metric_family-IsValid ops_sample ops_family "" alice_id [] (alice_labels_unique "1")
      nil-IsValid

-- The sample of the family is there until its deadline, 30000000005, has passed.
expire_lem_example :
    IsValid (expire 40000000000 full).fam
    × (sample_at (expire 40000000000 full).fam ops_family alice_id ≡ none)
unfolding add_metric_family add_sample lookup insert
expire_lem_example = expire_lem 40000000000 full ops_family alice_id full-IsValid

label_names_lem_example :
    Distinct (label_names (add_sample family ops_sample alice_id).label_set)
    × ((k : String)
        → In k (label_names (add_sample family ops_sample alice_id).label_set)
          ↔ IsCarried (add_sample family ops_sample alice_id) k)
label_names_lem_example = label_names_lem (add_sample family ops_sample alice_id) (
    add_sample-IsCounted family ops_sample alice_id (alice_labels_unique "1")
      (new_family-IsCounted "pp dataset 1, metric ops"))

-- A client library that refuses a reserved label, and keeps what it was given else.
abbrev pub IsAllowed : MetricArgs ℕ → Type 0
IsAllowed args = contains "__name__" args.names ≡ false

abbrev pub keep : MetricArgs ℕ → Result (MetricArgs ℕ)
keep args = if contains "__name__" args.names then err (message "reserved label") else ok args

abbrev pub IsAllowedFor : String → Sample ℕ → Option (MetricFamily ℕ) → Type 0
IsAllowedFor name sample none = Unit
IsAllowedFor name sample (some fam) = IsAllowed (args_of name fam sample)

collect-sends_example :
    (fam : MetricFamily ℕ) × (m : MetricArgs ℕ) × (lookup ops_family (expire 100 full).fam
      ≡ some fam)
    × (lookup alice_id fam.samples ≡ some ops_sample)
    × ((k : String) → In k (args_of ops_family fam ops_sample).names ↔ IsCarried fam k)
    × (keep (args_of ops_family fam ops_sample) ≡ ok m)
    × In m (collect keep (λ t a. a) 100 full).0
unfolding add_metric_family add_sample lookup insert metric_args label_names expire expire_families
    keep_family expire_family expire_samples bump_all bump discount ◌+ℤ◌
collect-sends_example =
    collect-sends keep (λ t a. a) IsAllowed 100 full ops_family alice_id ops_sample
      (λ args a d l. (args, ground (arith, a)))
      (λ fam f. subst (IsAllowedFor ops_family ops_sample) f refl) full-IsValid refl refl

-- ===== src/Prometheus/Collect.antt =====
-- `Collect` (prometheus.go): the answer to a scrape. `prometheus.NewConstMetric` and
-- `prometheus.NewMetricWithTimestamp` are the client library's, hence parameters.
pub mod Labels
pub mod Sent
use mathlib.Core.List
use goppstats.Prelude.{ℕ, String, List, [], ◌∷◌, map, Option, none, some, string_eq, if◌then◌else◌}
use goppstats.Prelude.Int.{ℤ, pos, ltb_ℤ}
use goppstats.Prelude.Result.{Result, ok, err}
use goppstats.Prelude.Dict.{Dict, lookup}
use goppstats.Prometheus.{Sample, Families, PrometheusSink}
use goppstats.Prometheus.Expire.{expire}

-- `labelNames`: the labels with a positive count.
unfoldable pub label_names : Dict String ℤ → List String
label_names [] = []
label_names ((k, v) ∷ rest) = if ltb_ℤ (pos 0) v then k ∷ label_names rest else label_names rest

-- `m[k]` of a `map[string]string`: empty for a missing key
abbrev pub text_or_empty : Option String → String
text_or_empty none = ""
text_or_empty (some v) = v

unfoldable pub label_values : Dict String String → List String → List String
label_values labels names = map (λ name. text_or_empty (lookup name labels)) names

-- What `Collect` hands to the client library for one sample.
pub record MetricArgs (Float64 : Type 0) : Type 0 where
  pub name : String
  pub help : String
  pub names : List String
  pub value : Float64
  pub values : List String

unfoldable pub metric_args :
    {Float64 : Type 0} → String → String → List String → Sample Float64 → MetricArgs Float64
unfolding label_values
metric_args name desc names s = record {
  name = name;
  help = desc;
  names = names;
  value = s.value;
  values = label_values s.labels names;
}

module _ {Float64 Metric : Type 0} (new_const_metric : MetricArgs Float64 → Result Metric)
    (with_timestamp : ℤ → Metric → Metric) where
  -- A metric that the library refuses is logged and left out.
  unfoldable pub send : ℤ → Result Metric → List Metric → List Metric
  send timestamp (ok m) rest = with_timestamp timestamp m ∷ rest
  send timestamp (err e) rest = rest

  unfoldable pub collect_samples :
      String → String → List String → Dict String (Sample Float64) → List Metric
  unfolding send metric_args
  collect_samples name desc names [] = []
  collect_samples name desc names ((id, s) ∷ rest) =
      send s.timestamp (new_const_metric (metric_args name desc names s))
        (collect_samples name desc names rest)

  unfoldable pub collect_families : Families Float64 → List Metric
  unfolding collect_samples label_names
  collect_families [] = []
  collect_families ((name, fam) ∷ rest) =
      List.◌++◌ (collect_samples name fam.desc (label_names fam.label_set) fam.samples)
        (collect_families rest)

  -- The metrics sent on the channel, and the sink after its samples have expired.
  unfoldable pub collect : ℕ → PrometheusSink Float64 → List Metric × PrometheusSink Float64
  unfolding collect_families expire
  collect now s = let s' = expire now s in (collect_families s'.fam, s')

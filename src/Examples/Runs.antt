-- ===== src/Examples/Runs.antt =====
-- A run of the Prometheus sink from its start: an update, two writes and two scrapes.
use goppstats.Prelude.{ℕ, List, [], ◌∷◌, none, ◌≡◌}
use goppstats.Prelude.Result.{Result, ok}
use goppstats.Prometheus.{PrometheusSink}
use goppstats.Prometheus.Samples.Valid.{IsValid, nil-IsValid}
use goppstats.Prometheus.Collect.{MetricArgs}
use goppstats.Prometheus.Spec.{Op, update, write, scrape, abstract, replay}
use goppstats.Prometheus.Spec.Runs.{run, run_refines}
use goppstats.Examples.Data.{api, stat, stat_on_node_2, entry, answer, sink}

abbrev fresh : PrometheusSink ℕ
fresh = record sink { dsm = none }

abbrev keep : MetricArgs ℕ → Result (MetricArgs ℕ)
keep args = ok args

abbrev ops : List (Op ℕ)
ops =
    update answer
    ∷ write 5 entry (stat ∷ [])
    ∷ scrape 10
    ∷ write 6 entry (stat_on_node_2 ∷ [])
    ∷ scrape 40000000000
    ∷ []

run_refines_example :
    IsValid (run api keep (λ t a. a) ops fresh 0).0.fam
    × ((abstract (run api keep (λ t a. a) ops fresh 0).0, (run api keep (λ t a. a) ops fresh 0).1)
        ≡ replay api ops (abstract fresh) 0)
run_refines_example = run_refines api keep (λ t a. a) ops fresh 0 nil-IsValid

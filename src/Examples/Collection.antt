-- ===== src/Examples/Collection.antt =====
-- A dataset collected over a network with one answer, and exposed by the Prometheus sink.
use goppstats.Prelude.{ℕ, ◌+◌, ◌*◌, String, List, [], ◌∷◌, true, ◌≡◌, refl}
use goppstats.Prelude.Int.{pos, pos_part}
use goppstats.Prelude.Result.{Result, ok}
use goppstats.Api.Types.{DsInfo, PpStatResult}
use goppstats.Prometheus.Samples.Valid.{nil-IsValid}
use goppstats.Main.{second, Collector}
use goppstats.Main.Loop.{collect_dataset, read_stats, collect_rounds}
use goppstats.Main.Prometheus.{Collection, prometheus_collector}
use goppstats.Main.Prometheus.Kept.{after_read, HasValid, collect_dataset-ends}
use goppstats.Main.Prometheus.Rounds.{collect_rounds-HasValid}
use goppstats.Prometheus.Server.{plain, init, connect, serving_of, client_of, new_sink}
use goppstats.Examples.Program.{toml, cluster_conf}
use goppstats.Examples.Data.{stat, entry, answer, sink}
use goppstats.Examples.Network.{net_with, cluster, answer_200}

abbrev pub decode_ds_info : String → Result DsInfo
decode_ds_info text = ok answer

abbrev pub decode_workloads : String → Result (List (PpStatResult ℕ))
decode_workloads text = ok (stat ∷ [])

-- A scrape comes during every call.
abbrev scrapes : ℕ → List ℕ
scrapes w = w * second ∷ []

abbrev collector : Collector ℕ (Collection ℕ ℕ)
collector =
    prometheus_collector (net_with (ok answer_200)) decode_ds_info decode_workloads
      (λ w. w * second) (λ d w. (true, w + pos_part d)) scrapes

abbrev collection : Collection ℕ ℕ
collection = record { cluster = cluster; sink = sink; host = 0 }

collect_dataset-ends_example :
    ((collect_dataset collector 3 8 (pos 5) entry (pos 10) collection).0
      ≡ after_read (read_stats collector 3 "by_user" (pos 10) collection).0 (pos 5))
    × HasValid
        (net_with (ok answer_200))
        decode_ds_info
        decode_workloads
        (λ w. w * second)
        (λ d w. (true, w + pos_part d))
        scrapes
        (collect_dataset collector 3 8 (pos 5) entry (pos 10) collection).1
collect_dataset-ends_example =
    collect_dataset-ends (net_with (ok answer_200)) decode_ds_info decode_workloads
      (λ w. w * second) (λ d w. (true, w + pos_part d)) scrapes 3 7 (pos 5) entry (pos 10)
      collection nil-IsValid

abbrev free : String → ℕ → Result Unit × ℕ
free addr w = (ok tt, w)

collect_rounds-HasValid_example :
    HasValid
      (net_with (ok answer_200))
      decode_ds_info
      decode_workloads
      (λ w. w * second)
      (λ d w. (true, w + pos_part d))
      scrapes
      (collect_rounds collector 3 8
        (pos 5)
        2
        (record { cluster = cluster; sink = new_sink "cluster" toml; host = 0 })).1
unfolding init connect serving_of
collect_rounds-HasValid_example =
    collect_rounds-HasValid (net_with (ok answer_200)) decode_ds_info decode_workloads
      (λ w. w * second) (λ d w. (true, w + pos_part d)) scrapes (λ w. (ok tt, w)) free cluster toml
      cluster_conf 0 0 (new_sink "cluster" toml) (client_of toml 9090) plain 3 7 (pos 5) 2 refl

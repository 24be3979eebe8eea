-- ===== src/Examples/Loop.antt =====
-- The collection loop over a clock: reads fail before a time, and the back end fails or does not.
use goppstats.Prelude.{
  ℕ, ◌+◌, ◌*◌, ◌≤◌, ◌<◌, ◌⊎◌, [], ◌∷◌, true, Option, none, some, ◌≡◌, refl, arith, ltb,
  if◌then◌else◌,
}
use goppstats.Prelude.Int.{ℤ, pos, pos_part, ◌+ℤ◌, ◌-ℤ◌, ◌≤ℤ◌, +ℤ_parts}
use goppstats.Prelude.Result.{ok, err, Error, message}
use goppstats.Main.{second, Collector}
use goppstats.Main.Duration.{longer, int64, retry_interval}
use goppstats.Main.Duration.Bounds.{prolonged, retry_interval-prolonged}
use goppstats.Main.Loop.{
  sample_rate, went_on, stopped, read_stats, write_stats, collect_dataset, collect_datasets,
  collect_round, collect_rounds, rest_of_period,
}
use goppstats.Main.Loop.Retries.{
  AreRefused, after_reads, read_stats-found, AreRejected, after_writes,
}
use goppstats.Main.Loop.Rounds.{
  AreClean, each_once, collect_datasets-each_once, collect_round-period,
}
use goppstats.Main.Loop.Stops.{collect_rounds-stopped, then_read, collect_datasets-prolonged}
use goppstats.Examples.Data.{entry, stat}

abbrev collector : ℕ → Option Error → Collector ℕ ℕ
collector start failure = record {
  get_data_set_info = λ v. (ok (record { datasets = entry ∷ []; total = pos 1; resume = "" }), v);
  get_pp_stats = λ name v. (if ltb v start then err (message "unavailable") else ok (stat ∷ []), v);
  update_datasets = λ di v. v;
  write_pp_stats = λ ds sr v. (failure, v + second);
  now = λ v. pos v;
  wait = λ d v. (true, v + pos_part d);
}

-- The reads fail at 0 and at 10 seconds, and succeed at 30.
read_stats-found_example :
    read_stats (collector (25 * second) none) 5 "ds" (pos (10 * second)) 0
    ≡ (went_on (stat ∷ []) (pos (40 * second)), 30 * second)
unfolding AreRefused after_reads prolonged longer int64 ◌+ℤ◌
read_stats-found_example =
    read_stats-found (collector (25 * second) none) 2 5 "ds" (pos (10 * second)) 0 (stat ∷ [])
      (omega arith)
      (message "unavailable", refl, refl, refl, (message "unavailable", refl, refl, refl, tt)) refl

-- Writes at 0 and at 6 seconds.
collect_rounds-stopped_example :
    collect_rounds (collector 0 (some (message "full"))) 1 2 (pos (5 * second)) 3 0
    ≡ (stopped, 17 * second)
unfolding AreRejected after_writes longer int64 ◌+ℤ◌ collect_datasets read_stats
collect_rounds-stopped_example =
    collect_rounds-stopped (collector 0 (some (message "full"))) 1 1 2 (pos (5 * second))
      (record { datasets = entry ∷ []; total = pos 1; resume = "" }) [] [] entry (stat ∷ [])
      (pos (10 * second)) (pos (10 * second)) 0 0 0 0 refl refl refl refl
      (message "full", refl, refl, refl, (message "full", refl, refl, refl, tt))

collect_datasets-each_once_example :
    collect_datasets
      (collector 0 none)
      1
      8
      (pos (5 * second))
      (entry ∷ entry ∷ [])
      (pos (10 * second))
      0
    ≡ (went_on tt (pos (5 * second)), 2 * second)
unfolding AreClean each_once
collect_datasets-each_once_example =
    collect_datasets-each_once (collector 0 none) 0 7 (pos (5 * second)) (entry ∷ entry ∷ [])
      (pos (10 * second)) 0 (stat ∷ [], refl, refl, (stat ∷ [], refl, refl, tt))

-- The reads of the next dataset begin with 5 seconds, not with 10.
collect_datasets-prolonged_example :
    (k : ℕ) × (k ≤ 8)
    × (collect_datasets
          (collector 0 none)
          1
          8
          (pos (5 * second))
          (entry ∷ entry ∷ [])
          (pos (10 * second))
          0
        ≡ then_read
            (collector 0 none)
            1
            8
            (pos (5 * second))
            []
            entry
            (read_stats (collector 0 none) 1 entry.name (prolonged k (pos (5 * second))) second))
unfolding collect_dataset read_stats write_stats
collect_datasets-prolonged_example =
    collect_datasets-prolonged (collector 0 none) 1 8 (pos (5 * second)) [] entry entry
      (pos (10 * second)) (pos (5 * second)) 0 second refl

-- Nine failed writes, from an interval of five seconds.
retry_interval-prolonged_example :
    (retry_interval (pos 5) ≡ pos (5 * second))
    × ((m : ℕ) × (prolonged 9 (retry_interval (pos 5)) ≡ pos m)
        × (5 * second ≤ m)
        × ((m ≡ 5 * second) ⊎ (m < 2560 * second)))
retry_interval-prolonged_example = retry_interval-prolonged 5 9 (omega arith)

wait_takes_time : (d : ℤ) (v : ℕ) → (pos v +ℤ d) ≤ℤ pos (v + pos_part d)
wait_takes_time d v = ground (arith, +ℤ_parts (pos v) d)

collect_round-period_example : (pos 0 +ℤ sample_rate) ≤ℤ pos (30 * second)
unfolding collect_round collect_datasets collect_dataset read_stats write_stats rest_of_period ◌+ℤ◌
    ◌-ℤ◌
collect_round-period_example =
    collect_round-period (collector 0 none) 1 8 (pos (5 * second)) (pos (5 * second)) 0
      (λ d v p. wait_takes_time d v) refl

-- ===== src/Main/Loop.antt =====
-- The loop of `statsloop`.
pub mod Retries
pub mod Rounds
pub mod Stops
pub mod Clocked
pub mod Cancelled
use goppstats.Prelude.{ℕ, zero, suc, ◌*◌, String, List, [], ◌∷◌, true, false, Option, none, some}
use goppstats.Prelude.Int.{ℤ, pos, ◌+ℤ◌, ◌-ℤ◌, ltb_ℤ}
use goppstats.Prelude.Result.{Result, ok, err, Error, is_canceled}
use goppstats.Api.Types.{DsInfo, DsInfoEntry, PpStatResult}
use goppstats.Main.{second, Collector}
use goppstats.Main.Duration.{longer}

-- `PPSampleRate` seconds
abbrev pub sample_rate : ℤ
sample_rate = pos (30 * second)

-- How a part of the loop ends: with a result and the retry time, by a return, or without fuel.
pub data Outcome (A : Type 0) : Type 0 where
  went_on : A → ℤ → Outcome A
  stopped out_of_fuel : Outcome A

module _ {Float64 V : Type 0} (io : Collector Float64 V) where
  -- The reads of one dataset, which have no limit in the program.
  unfoldable pub read_stats : ℕ → String → ℤ → V → Outcome (List (PpStatResult Float64)) × V
  read_stats zero name t v = (out_of_fuel, v)
  read_stats (suc fuel) name t v =
      let (r, v₁) = io.get_pp_stats name v in
      elim r [
        | ok sr ↦ (went_on sr t, v₁)
        | err e ↦ elim (is_canceled e) [
          | true ↦ (stopped, v₁)
          | false ↦
              let (passed, v₂) = io.wait t v₁ in
              elim passed [ false ↦ (stopped, v₂) | true ↦ read_stats fuel name (longer t) v₂ ]
        ]
      ]

  -- The writes of one dataset, by the rounds left, with the last error.
  unfoldable pub write_stats :
      ℕ → DsInfoEntry → List (PpStatResult Float64) → ℤ → Option Error → V → Outcome Unit × V
  write_stats zero ds sr t none v = (went_on tt t, v)
  write_stats zero ds sr t (some e) v = (stopped, v)
  write_stats (suc n) ds sr t last v =
      let (r, v₁) = io.write_pp_stats ds sr v in
      elim r [
        | none ↦ (went_on tt t, v₁)
        | some e ↦ elim (is_canceled e) [
          | true ↦ (stopped, v₁)
          | false ↦
              let (passed, v₂) = io.wait t v₁ in
              elim passed [
                | false ↦ (stopped, v₂)
                | true ↦ write_stats n ds sr (longer t) (some e) v₂
              ]
        ]
      ]

  -- `ProcessorMaxRetries` and `ProcessorRetryIntvl`, in seconds
  module _ (fuel : ℕ) (max_retries : ℕ) (interval : ℤ) where
    -- One dataset: its results are read, then written.
    unfoldable pub collect_dataset : DsInfoEntry → ℤ → V → Outcome Unit × V
    unfolding read_stats write_stats
    collect_dataset ds t v =
        let (r, v₁) = read_stats fuel ds.name t v in
        elim r [
          | went_on sr _ ↦ write_stats max_retries ds sr interval none v₁
          | stopped ↦ (stopped, v₁)
          | out_of_fuel ↦ (out_of_fuel, v₁)
        ]

    -- `for _, ds := range di.Datasets`
    unfoldable pub collect_datasets : List DsInfoEntry → ℤ → V → Outcome Unit × V
    unfolding collect_dataset
    collect_datasets [] t v = (went_on tt t, v)
    collect_datasets (ds ∷ rest) t v =
        let (r, v₁) = collect_dataset ds t v in
        elim r [
          | went_on _ t' ↦ collect_datasets rest t' v₁
          | stopped ↦ (stopped, v₁)
          | out_of_fuel ↦ (out_of_fuel, v₁)
        ]

    -- The wait for the next round, unless its time has come.
    unfoldable pub rest_of_period : ℤ → ℤ → V → Outcome Unit × V
    rest_of_period next_time t v =
        let cur_time = io.now v in
        elim (ltb_ℤ cur_time next_time) [
          | false ↦ (went_on tt t, v)
          | true ↦
              let (passed, v₁) = io.wait (next_time -ℤ cur_time) v in
              elim passed [ false ↦ (stopped, v₁) | true ↦ (went_on tt t, v₁) ]
        ]

    -- One round of the outer loop.
    unfoldable pub collect_round : V → Outcome Unit × V
    unfolding collect_datasets rest_of_period
    collect_round v =
        let next_time = io.now v +ℤ sample_rate in
        let (r, v₁) = io.get_data_set_info v in
        elim r [
          | err e ↦ (stopped, v₁)
          | ok di ↦
              let (o, v₂) =
                collect_datasets di.datasets (pos (10 * second)) (io.update_datasets di v₁) in
              elim o [
                | went_on _ t ↦ rest_of_period next_time t v₂
                | stopped ↦ (stopped, v₂)
                | out_of_fuel ↦ (out_of_fuel, v₂)
              ]
        ]

    -- `for { … }`, as many rounds of it as are looked at: it has no end of its own.
    unfoldable pub collect_rounds : ℕ → V → Outcome Unit × V
    unfolding collect_round
    collect_rounds zero v = (out_of_fuel, v)
    collect_rounds (suc k) v =
        let (o, v₁) = collect_round v in
        elim o [
          | went_on _ _ ↦ collect_rounds k v₁
          | stopped ↦ (stopped, v₁)
          | out_of_fuel ↦ (out_of_fuel, v₁)
        ]

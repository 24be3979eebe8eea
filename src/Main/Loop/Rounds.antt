-- ===== src/Main/Loop/Rounds.antt =====
-- A round of the loop over the datasets.
use goppstats.Prelude.{
  ℕ, suc, ◌≤◌, ◌*◌, List, [], ◌∷◌, true, none, ◌≡◌, refl, arith, ◌⊎◌, inl, inr, Bool-cases,
}
use goppstats.Prelude.Int.{ℤ, pos, ◌+ℤ◌, ◌-ℤ◌, ◌≤ℤ◌, ltb_ℤ, +ℤ_parts, -ℤ_parts}
use goppstats.Prelude.Result.{ok, Result-cases}
use goppstats.Api.Types.{DsInfoEntry, PpStatResult}
use goppstats.Main.{second, Collector}
use goppstats.Main.Loop.{
  sample_rate, Outcome, went_on, stopped, out_of_fuel, read_stats, write_stats, collect_dataset,
  collect_datasets, collect_round, rest_of_period,
}
use goppstats.Main.Duration.Bounds.{prolonged}
use goppstats.Main.Loop.Retries.{write_stats-prolonged}

pub Outcome-cases :
    {A : Type 0} (o : Outcome A)
    → ((r : A × ℤ) × (o ≡ went_on r.0 r.1)) ⊎ ((o ≡ stopped) ⊎ (o ≡ out_of_fuel))
Outcome-cases (went_on a t) = inl ((a, t), refl)
Outcome-cases stopped = inr (inl refl)
Outcome-cases out_of_fuel = inr (inr refl)

module _ {Float64 V : Type 0} (io : Collector Float64 V) where
  -- Each dataset is read and written without an error.
  unfoldable pub AreClean : List DsInfoEntry → V → Type 0
  AreClean [] v = Unit
  AreClean (ds ∷ rest) v =
      (sr : List (PpStatResult Float64)) × ((io.get_pp_stats ds.name v).0 ≡ ok sr)
      × ((io.write_pp_stats ds sr (io.get_pp_stats ds.name v).1).0 ≡ none)
      × AreClean rest (io.write_pp_stats ds sr (io.get_pp_stats ds.name v).1).1

  -- One read and one write of each dataset, in order.
  unfoldable pub each_once : (dss : List DsInfoEntry) (v : V) → AreClean dss v → V
  unfolding AreClean
  each_once [] v h = v
  each_once (ds ∷ rest) v (sr, r, q, h) =
      each_once rest (io.write_pp_stats ds sr (io.get_pp_stats ds.name v).1).1 h

  -- The retry time after the datasets.
  abbrev left_time : List DsInfoEntry → ℤ → ℤ → ℤ
  left_time [] interval t = t
  left_time (_ ∷ _) interval t = interval

  -- If no read and no write fails, every dataset is read once and written once, in order, with what
  -- was read of it; the retry time is then the interval of the writes, unless there is no dataset.
  pub collect_datasets-each_once :
      (fuel max_retries : ℕ) (interval : ℤ) (dss : List DsInfoEntry) (t : ℤ) (v : V)
      (clean : AreClean dss v)
      → collect_datasets io (suc fuel) (suc max_retries) interval dss t v
        ≡ (went_on tt (left_time dss interval t), each_once dss v clean)
  unfolding collect_datasets collect_dataset read_stats write_stats AreClean each_once
  collect_datasets-each_once fuel max_retries interval [] t v clean = refl
  collect_datasets-each_once fuel max_retries interval (ds ∷ []) t v (sr, r, q, h) =
      ground (arith, r, q)
  collect_datasets-each_once fuel max_retries interval (ds ∷ ds' ∷ rest) t v (sr, r, q, h) =
      ground (
        arith,
        r,
        q,
        collect_datasets-each_once fuel max_retries interval (ds' ∷ rest) interval
            (io.write_pp_stats ds sr (io.get_pp_stats ds.name v).1).1 h,
      )

  -- A dataset that is collected leaves the interval of the writes, prolonged at most once for each of
  -- their rounds, whatever the retry time before it was: the reads of the next dataset begin with it.
  pub collect_dataset-prolonged :
      (fuel max_retries : ℕ) (interval : ℤ) (ds : DsInfoEntry) (t t' : ℤ) (v : V)
      → (collect_dataset io fuel max_retries interval ds t v).0 ≡ went_on tt t'
      → (k : ℕ) × (k ≤ max_retries) × (t' ≡ prolonged k interval)
  unfolding collect_dataset
  collect_dataset-prolonged fuel max_retries interval ds t t' v e =
      elim (Outcome-cases (read_stats io fuel ds.name t v).0) [
        | inl ((sr, t₁), q) ↦
            write_stats-prolonged io max_retries ds sr interval t' none
              (read_stats io fuel ds.name t v).1 (ground (arith, q, e))
        | inr (inl q) ↦ let no : ⊥ = ground (arith, q, e) in elim no [ ]
        | inr (inr q) ↦ let no : ⊥ = ground (arith, q, e) in elim no [ ]
      ]

  -- A wait that passes takes its time.
  abbrev IsTimed : Type 0
  IsTimed = (d : ℤ) (v : V) → (io.wait d v).0 ≡ true → (io.now v +ℤ d) ≤ℤ io.now (io.wait d v).1

  rest_of_period-now :
      (fuel max_retries : ℕ) (interval next_time t t' : ℤ) (v : V)
      → IsTimed
      → (rest_of_period io fuel max_retries interval next_time t v).0 ≡ went_on tt t'
      → next_time ≤ℤ io.now (rest_of_period io fuel max_retries interval next_time t v).1
  unfolding rest_of_period
  rest_of_period-now fuel max_retries interval next_time t t' v timed e =
      elim (Bool-cases (ltb_ℤ (io.now v) next_time)) [
        | inr q ↦ ground (arith, q)
        | inl q ↦ elim (Bool-cases (io.wait (next_time -ℤ io.now v) v).0) [
          | inl p ↦ ground (
            arith,
            q,
            p,
            timed (next_time -ℤ io.now v) v p,
            +ℤ_parts (io.now v) (next_time -ℤ io.now v),
            -ℤ_parts next_time (io.now v),
          )
          | inr p ↦ let no : ⊥ = ground (arith, q, p, e) in elim no [ ]
        ]
      ]

  -- If a wait that passes takes its time, then a round that goes on has taken at least the 30 seconds
  -- of `PPSampleRate`.
  pub collect_round-period :
      (fuel max_retries : ℕ) (interval t : ℤ) (v : V)
      → IsTimed
      → (collect_round io fuel max_retries interval v).0 ≡ went_on tt t
      → (io.now v +ℤ sample_rate) ≤ℤ io.now (collect_round io fuel max_retries interval v).1
  unfolding collect_round
  collect_round-period fuel max_retries interval t v timed e =
      let v₁ = (io.get_data_set_info v).1 in
      elim (Result-cases (io.get_data_set_info v).0) [
        | inr (x, q) ↦ let no : ⊥ = ground (arith, q, e) in elim no [ ]
        | inl (di, q) ↦
            let done =
              collect_datasets io fuel max_retries interval di.datasets (pos (10 * second))
                (io.update_datasets di v₁) in
            elim (Outcome-cases done.0) [
              | inr (inl p) ↦ let no : ⊥ = ground (arith, q, p, e) in elim no [ ]
              | inr (inr p) ↦ let no : ⊥ = ground (arith, q, p, e) in elim no [ ]
              | inl ((_, t'), p) ↦ ground (
                arith,
                q,
                p,
                rest_of_period-now fuel max_retries interval (io.now v +ℤ sample_rate) t' t done.1
                    timed (ground (arith, q, p, e)),
              )
            ]
      ]

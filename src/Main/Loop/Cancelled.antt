-- ===== src/Main/Loop/Cancelled.antt =====
-- The end of the loop once its context is cancelled.
use goppstats.Prelude.{
  ℕ, zero, suc, ◌+◌, ◌*◌, ◌≤◌, ◌<◌, List, [], ◌∷◌, false, ◌≡◌, refl, arith, inl, inr, Bool-cases,
  none, subst,
}
use goppstats.Prelude.Int.{ℤ, pos, ◌+ℤ◌, ◌-ℤ◌, ltb_ℤ, +ℤ_parts}
use goppstats.Prelude.Result.{Result-cases}
use goppstats.Api.Types.{DsInfoEntry}
use goppstats.Main.{second, Collector}
use goppstats.Main.Loop.{
  sample_rate, Outcome, went_on, stopped, read_stats, collect_dataset, collect_datasets,
  rest_of_period, collect_round, collect_rounds,
}
use goppstats.Main.Loop.Rounds.{Outcome-cases, collect_round-period}
use goppstats.Main.Loop.Clocked.{
  IsCancelledAt, ran_out, IsLong, IsLongAfter, read_stats-ends, write_stats-ends,
}

module _ {Float64 V : Type 0} (io : Collector Float64 V) (clock : V → ℕ) (deadline : ℕ)
    (laws : IsCancelledAt io clock deadline) (fuel max_retries : ℕ) (interval : ℤ)
    (long : IsLong interval) where
  abbrev IsLate : V → Type 0
  IsLate v = deadline < clock v + fuel * second

  abbrev IsAfter : Outcome Unit → Type 0
  IsAfter = IsLongAfter io clock deadline laws

  collect_dataset-ends :
      (ds : DsInfoEntry) (t : ℤ) (v : V)
      → IsLong t
      → IsLate v
      → IsAfter (collect_dataset io (suc fuel) max_retries interval ds t v).0
        × (clock v ≤ clock (collect_dataset io (suc fuel) max_retries interval ds t v).1)
  unfolding collect_dataset
  collect_dataset-ends ds t v l b =
      let (o, after) = read_stats-ends io clock deadline laws fuel ds.name t v l b in
      let (r, v₁) = read_stats io (suc fuel) ds.name t v in
      elim (Outcome-cases r) [
        | inl ((sr, t₁), q) ↦
            let (w, more) =
              write_stats-ends io clock deadline laws max_retries ds sr interval none v₁ long in
            rw (q, collect_dataset) (w, omega arith)
        | inr (inl q) ↦ rw (q, collect_dataset) (tt, after)
        | inr (inr q) ↦ let no : ⊥ = ground (arith, q, o) in elim no [ ]
      ]

  collect_datasets-ends :
      (dss : List DsInfoEntry) (t : ℤ) (v : V)
      → IsLong t
      → IsLate v
      → IsAfter (collect_datasets io (suc fuel) max_retries interval dss t v).0
        × (clock v ≤ clock (collect_datasets io (suc fuel) max_retries interval dss t v).1)
  unfolding collect_datasets
  collect_datasets-ends [] t v l b = (l, omega arith)
  collect_datasets-ends (ds ∷ rest) t v l b =
      let (a, after) = collect_dataset-ends ds t v l b in
      let (r, v₁) = collect_dataset io (suc fuel) max_retries interval ds t v in
      elim (Outcome-cases r) [
        | inl ((_, t₁), q) ↦
            let (w, more) = collect_datasets-ends rest t₁ v₁ (subst IsAfter q a) (omega arith) in
            rw (q, collect_datasets) (w, omega arith)
        | inr (inl q) ↦ rw (q, collect_datasets) (tt, after)
        | inr (inr q) ↦ elim (subst IsAfter q a) [ ]
      ]

  rest_of_period-ends :
      (next_time t : ℤ) (v : V)
      → ran_out (rest_of_period io (suc fuel) max_retries interval next_time t v).0 ≡ false
  unfolding rest_of_period
  rest_of_period-ends next_time t v = elim (Bool-cases (ltb_ℤ (io.now v) next_time)) [
    | inr q ↦ ground (arith, q)
    | inl q ↦ elim (Bool-cases (io.wait (next_time -ℤ io.now v) v).0) [
      | inl p ↦ ground (arith, q, p)
      | inr p ↦ ground (arith, q, p)
    ]
  ]

  collect_round-ends :
      (v : V) → IsLate v → ran_out (collect_round io (suc fuel) max_retries interval v).0 ≡ false
  unfolding collect_round
  collect_round-ends v b =
      let v₁ = (io.get_data_set_info v).1 in
      elim (Result-cases (io.get_data_set_info v).0) [
        | inr (x, q) ↦ ground (arith, q)
        | inl (di, q) ↦
            let v₂ = io.update_datasets di v₁ in
            let info = laws.after_info v in
            let update = laws.after_update di v₁ in
            let next = io.now v +ℤ sample_rate in
            let (a, after) =
              collect_datasets-ends di.datasets (pos (10 * second)) v₂
                (10 * second, refl, omega arith, omega arith) (omega arith) in
            let done =
              collect_datasets io (suc fuel) max_retries interval di.datasets (pos (10 * second))
                v₂ in
            elim (Outcome-cases done.0) [
              | inl ((_, t), p) ↦ ground (arith, q, p, rest_of_period-ends next t done.1)
              | inr (inl p) ↦ ground (arith, q, p)
              | inr (inr p) ↦ elim (subst IsAfter p a) [ ]
            ]
      ]

  -- A round that goes on has taken more than a second.
  round-clock :
      (t : ℤ) (v : V)
      → (collect_round io (suc fuel) max_retries interval v).0 ≡ went_on tt t
      → clock v + second ≤ clock (collect_round io (suc fuel) max_retries interval v).1
  round-clock t v e =
      let v' = (collect_round io (suc fuel) max_retries interval v).1 in
      ground (
        arith,
        collect_round-period io (suc fuel) max_retries interval t v laws.timed e,
        laws.now v,
        laws.now v',
        +ℤ_parts (io.now v) sample_rate,
      )

  pub collect_rounds-ends :
      (rounds : ℕ) (v : V)
      → IsLate v
      → deadline < clock v + rounds * second
      → (collect_rounds io (suc fuel) max_retries interval (suc rounds) v).0 ≡ stopped
  unfolding collect_rounds
  collect_rounds-ends zero v b r =
      let (x, q) = laws.no_info v (omega arith) in
      let e : (collect_round io (suc fuel) max_retries interval v).0 ≡ stopped =
        unfold collect_round in ground (arith, q) in
      ground (arith, e)
  collect_rounds-ends (suc k) v b r =
      let (o, v₁) = collect_round io (suc fuel) max_retries interval v in
      let ran = collect_round-ends v b in
      elim (Outcome-cases o) [
        | inl ((_, t), q) ↦
            let took = round-clock t v q in
            ground (arith, q, collect_rounds-ends k v₁ (omega arith) (omega arith))
        | inr (inl q) ↦ ground (arith, q)
        | inr (inr q) ↦ let no : ⊥ = ground (arith, q, ran) in elim no [ ]
      ]

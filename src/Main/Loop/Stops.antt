-- ===== src/Main/Loop/Stops.antt =====
-- What the loop makes of the last failed write, and which retry time the next dataset begins with.
use goppstats.Prelude.{ℕ, suc, ◌≤◌, ◌*◌, List, [], ◌∷◌, ◌++◌, none, ◌≡◌, ap, ◌∙◌, arith, inl, inr}
use goppstats.Prelude.Int.{ℤ, pos}
use goppstats.Prelude.Result.{ok}
use goppstats.Api.Types.{DsInfo, DsInfoEntry, PpStatResult}
use goppstats.Main.{second, Collector}
use goppstats.Main.Duration.Bounds.{prolonged}
use goppstats.Main.Loop.{
  Outcome, went_on, stopped, out_of_fuel, read_stats, write_stats, collect_dataset,
  collect_datasets, collect_round, collect_rounds,
}
use goppstats.Main.Loop.Retries.{AreRejected, after_writes, write_stats-stopped}
use goppstats.Main.Loop.Rounds.{Outcome-cases, collect_dataset-prolonged}

module _ {Float64 V : Type 0} (io : Collector Float64 V) (fuel : ℕ) where
  -- Datasets that go on are followed by the next.
  collect_datasets-append :
      (n : ℕ) (interval : ℤ) (before rest : List DsInfoEntry) (t t' : ℤ) (v v' : V)
      → collect_datasets io fuel n interval before t v ≡ (went_on tt t', v')
      → collect_datasets io fuel n interval (before ++ rest) t v
        ≡ collect_datasets io fuel n interval rest t' v'
  unfolding collect_datasets
  collect_datasets-append n interval [] rest t t' v v' e = ground (arith, e)
  collect_datasets-append n interval (ds ∷ before) rest t t' v v' e =
      elim (Outcome-cases (collect_dataset io fuel n interval ds t v).0) [
        | inl ((_, t₁), q) ↦
            let v₁ = (collect_dataset io fuel n interval ds t v).1 in
            let later =
              collect_datasets-append n interval before rest t₁ t' v₁ v' (ground (arith, q, e)) in
            ground (arith, q, later)
        | inr (inl q) ↦ let no : ⊥ = ground (arith, q, e) in elim no [ ]
        | inr (inr q) ↦ let no : ⊥ = ground (arith, q, e) in elim no [ ]
      ]

  collect_datasets-stopped :
      (n : ℕ) (interval : ℤ) (ds : DsInfoEntry) (rest : List DsInfoEntry) (t t' : ℤ) (v v' : V)
      (sr : List (PpStatResult Float64))
      → read_stats io fuel ds.name t v ≡ (went_on sr t', v')
      → AreRejected io (suc n) ds sr interval v'
      → collect_datasets io fuel (suc n) interval (ds ∷ rest) t v
        ≡ (stopped, after_writes io (suc n) ds sr interval v')
  unfolding collect_datasets collect_dataset
  collect_datasets-stopped n interval ds rest t t' v v' sr r h =
      ground (arith, r, write_stats-stopped io n ds sr interval v' h)

  -- If the datasets before it are collected, a dataset is read, and every one of the configured attempts
  -- to write it fails, at least one, none of them as canceled, and every wait passes, then the collection
  -- of the cluster's statistics stops after as many attempts: no dataset after it is read, and no round
  -- follows.
  pub collect_rounds-stopped :
      (n rounds : ℕ) (interval : ℤ) (di : DsInfo) (before rest : List DsInfoEntry)
      (ds : DsInfoEntry) (sr : List (PpStatResult Float64)) (t t' : ℤ) (v v₁ v₂ v₃ : V)
      → io.get_data_set_info v ≡ (ok di, v₁)
      → di.datasets ≡ before ++ ds ∷ rest
      → collect_datasets io fuel
          (suc n)
          interval
          before
          (pos (10 * second))
          (io.update_datasets di v₁)
        ≡ (went_on tt t, v₂)
      → read_stats io fuel ds.name t v₂ ≡ (went_on sr t', v₃)
      → AreRejected io (suc n) ds sr interval v₃
      → collect_rounds io fuel (suc n) interval (suc rounds) v
        ≡ (stopped, after_writes io (suc n) ds sr interval v₃)
  unfolding collect_rounds collect_round
  collect_rounds-stopped n rounds interval di before rest ds sr t t' v v₁ v₂ v₃ i d b r h =
      let start = io.update_datasets di v₁ in
      let all : collect_datasets io fuel (suc n) interval di.datasets (pos (10 * second)) start
          ≡ (stopped, after_writes io (suc n) ds sr interval v₃) =
        ap (λ dss. collect_datasets io fuel (suc n) interval dss (pos (10 * second)) start) d
        ∙ collect_datasets-append (suc n) interval before (ds ∷ rest) (pos (10 * second)) t start v₂
            b
        ∙ collect_datasets-stopped n interval ds rest t t' v₂ v₃ sr r h in
      ground (arith, i, all)

  module _ (n : ℕ) (interval : ℤ) (rest : List DsInfoEntry) where
    -- What follows the writes of a dataset, and what its reads.
    abbrev then_written : Outcome Unit × V → Outcome Unit × V
    then_written (went_on _ t, v) = collect_datasets io fuel n interval rest t v
    then_written (stopped, v) = (stopped, v)
    then_written (out_of_fuel, v) = (out_of_fuel, v)

    abbrev pub then_read :
        DsInfoEntry → Outcome (List (PpStatResult Float64)) × V → Outcome Unit × V
    then_read ds (went_on sr _, v) = then_written (write_stats io n ds sr interval none v)
    then_read ds (stopped, v) = (stopped, v)
    then_read ds (out_of_fuel, v) = (out_of_fuel, v)

    collect_datasets-cons :
        (ds : DsInfoEntry) (t : ℤ) (v : V)
        → collect_datasets io fuel n interval (ds ∷ rest) t v
          ≡ then_read ds (read_stats io fuel ds.name t v)
    unfolding collect_datasets collect_dataset
    collect_datasets-cons ds t v = ground arith

    -- After a dataset that is collected the retry time is the interval of the writes, prolonged at most
    -- once for each of their rounds, whatever it was before. The reads of the next dataset begin with it,
    -- and are followed by its writes and then by the rest of the datasets, where each of these goes on.
    pub collect_datasets-prolonged :
        (ds next : DsInfoEntry) (t t' : ℤ) (v v' : V)
        → collect_dataset io fuel n interval ds t v ≡ (went_on tt t', v')
        → (k : ℕ) × (k ≤ n)
          × (collect_datasets io fuel n interval (ds ∷ next ∷ rest) t v
              ≡ then_read next (read_stats io fuel next.name (prolonged k interval) v'))
    unfolding collect_datasets
    collect_datasets-prolonged ds next t t' v v' e =
        let (k, l, q) = collect_dataset-prolonged io fuel n interval ds t t' v (ap (λ r. r.0) e) in
        (
          k,
          l,
          collect_datasets-append n interval (ds ∷ []) (next ∷ rest) t t' v v' (ground (arith, e))
              ∙ ap (λ x. collect_datasets io fuel n interval (next ∷ rest) x v') q
              ∙ collect_datasets-cons next (prolonged k interval) v',
        )

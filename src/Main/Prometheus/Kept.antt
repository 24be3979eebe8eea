-- ===== src/Main/Prometheus/Kept.antt =====
-- The loop over the Prometheus sink: what its writes can do to it, and what it does to the sink.
use goppstats.Prelude.{
  ℕ, zero, suc, String, List, [], ◌∷◌, Bool, none, ◌≡◌, refl, inl, inr, Bool-cases,
}
use goppstats.Prelude.Int.{ℤ}
use goppstats.Prelude.Result.{Result, Result-cases, is_canceled}
use goppstats.Api.Types.{DsInfo, DsInfoEntry, PpStatResult}
use goppstats.Api.Client.{Net}
use goppstats.Api.Client.Queries.{export_api}
use goppstats.Prometheus.Samples.Valid.{IsValid}
use goppstats.Prometheus.{PrometheusSink}
use goppstats.Prometheus.Expire.{expire}
use goppstats.Prometheus.Expire.All.{expire_lem}
use goppstats.Prometheus.Write.{write_pp_stats}
use goppstats.Prometheus.Write.Results.{write_pp_stats-IsValid}
use goppstats.Main.{Collector}
use goppstats.Main.Duration.{longer}
use goppstats.Main.Loop.{
  Outcome, went_on, stopped, out_of_fuel, read_stats, write_stats, collect_dataset,
}
use goppstats.Main.Loop.Rounds.{Outcome-cases}
use goppstats.Main.Prometheus.{Collection, after_scrapes, prometheus_collector}

-- What a read leads to if the write that follows succeeds.
abbrev pub after_read :
    {Float64 : Type 0} → Outcome (List (PpStatResult Float64)) → ℤ → Outcome Unit
after_read (went_on sr t) interval = went_on tt interval
after_read stopped interval = stopped
after_read out_of_fuel interval = out_of_fuel

pub after_scrapes-IsValid :
    {Float64 : Type 0} (ts : List ℕ) (s : PrometheusSink Float64)
    → IsValid s.fam
    → IsValid (after_scrapes ts s).fam
unfolding after_scrapes
after_scrapes-IsValid [] s h = h
after_scrapes-IsValid (t ∷ later) s h =
    after_scrapes-IsValid later (expire t s) (expire_lem t s "" "" h).0

module _ {Float64 W : Type 0} (net : Net Float64 W) (decode_ds_info : String → Result DsInfo)
    (decode_workloads : String → Result (List (PpStatResult Float64))) (now : W → ℕ)
    (wait : ℤ → W → Bool × W) (scrapes : W → List ℕ) where
  abbrev io : Collector Float64 (Collection Float64 W)
  io = prometheus_collector net decode_ds_info decode_workloads now wait scrapes

  -- The families of the sink are valid.
  abbrev pub HasValid : Collection Float64 W → Type 0
  HasValid v = IsValid v.sink.fam

  -- However long the reads take, and whatever is scraped meanwhile.
  read_stats-HasValid :
      (fuel : ℕ) (name : String) (t : ℤ) (v : Collection Float64 W)
      → HasValid v
      → HasValid (read_stats io fuel name t v).1
  unfolding read_stats
  read_stats-HasValid zero name t v h = h
  read_stats-HasValid (suc fuel) name t v h =
      let (r, v₁) = io.get_pp_stats name v in
      let (passed, v₂) = io.wait t v₁ in
      let h₁ = after_scrapes-IsValid (scrapes v₁.host) v.sink h in
      let h₂ = after_scrapes-IsValid (scrapes v₂.host) v₁.sink h₁ in
      elim (Result-cases r) [
        | inl (sr, e) ↦ rw (e, read_stats) h₁
        | inr (x, e) ↦ elim (Bool-cases (is_canceled x)) [
          | inl c ↦ rw (e, read_stats) (rw (c, read_stats) h₁)
          | inr c ↦ elim (Bool-cases passed) [
            | inr p ↦ rw (e, read_stats) (rw (c, read_stats) (rw (p, read_stats) h₂))
            | inl p ↦
                rw (e, read_stats)
                  (rw (c, read_stats)
                    (rw (p, read_stats) (read_stats-HasValid fuel name (longer t) v₂ h₂)))
          ]
        ]
      ]

  -- A write is done at the first attempt.
  write_stats-first :
      (n : ℕ) (ds : DsInfoEntry) (sr : List (PpStatResult Float64)) (t : ℤ)
      (v : Collection Float64 W)
      → HasValid v
      → ((write_stats io (suc n) ds sr t none v).0 ≡ went_on tt t)
        × HasValid (write_stats io (suc n) ds sr t none v).1
  unfolding write_stats
  write_stats-first n ds sr t v h =
      let (e, valid) =
        write_pp_stats-IsValid (export_api net) (now v.host) ds sr v.sink (v.cluster, v.host) h in
      let (error, s, cw) =
        write_pp_stats (export_api net) (now v.host) ds sr v.sink (v.cluster, v.host) in
      rw (e, write_stats) (refl, after_scrapes-IsValid (scrapes cw.1) s valid)

  pub collect_dataset-ends :
      (fuel n : ℕ) (interval : ℤ) (ds : DsInfoEntry) (t : ℤ) (v : Collection Float64 W)
      → HasValid v
      → ((collect_dataset io fuel (suc n) interval ds t v).0
          ≡ after_read (read_stats io fuel ds.name t v).0 interval)
        × HasValid (collect_dataset io fuel (suc n) interval ds t v).1
  unfolding collect_dataset
  collect_dataset-ends fuel n interval ds t v h =
      let (r, v₁) = read_stats io fuel ds.name t v in
      let h₁ = read_stats-HasValid fuel ds.name t v h in
      elim (Outcome-cases r) [
        | inl ((sr, t₁), e) ↦ rw (e, collect_dataset) (write_stats-first n ds sr interval v₁ h₁)
        | inr (inl e) ↦ rw (e, collect_dataset) (refl, h₁)
        | inr (inr e) ↦ rw (e, collect_dataset) (refl, h₁)
      ]

-- ===== src/Main/Prometheus/Rounds.antt =====
-- The rounds of the loop over the Prometheus sink.
use goppstats.Prelude.{
  ℕ, zero, suc, ◌*◌, String, List, [], ◌∷◌, Bool, true, false, if◌then◌else◌, ◌≡◌, sym, subst,
  arith, inl, inr,
}
use goppstats.Prelude.Int.{ℤ, pos, ◌+ℤ◌, ◌-ℤ◌, ltb_ℤ}
use goppstats.Prelude.Result.{Result, ok, Result-cases}
use goppstats.Api.Types.{DsInfo, DsInfoEntry, PpStatResult}
use goppstats.Api.Client.{Cluster, Net}
use goppstats.Prometheus.Datasets.{update_datasets}
use goppstats.Prometheus.Samples.Valid.{IsValid, nil-IsValid}
use goppstats.Prometheus.{PrometheusSink}
use goppstats.Config.{TomlConfig, ClusterConf}
use goppstats.Prometheus.Server.{PrometheusClient, Serving, new_sink, init}
use goppstats.Prometheus.Server.Guard.{init-made}
use goppstats.Main.{second, Collector}
use goppstats.Main.Loop.{
  sample_rate, collect_dataset, collect_datasets, collect_round, collect_rounds, rest_of_period,
}
use goppstats.Main.Loop.Rounds.{Outcome-cases}
use goppstats.Main.Prometheus.{Collection, prometheus_collector}
use goppstats.Main.Prometheus.Kept.{HasValid, after_scrapes-IsValid, collect_dataset-ends}

module _ {Float64 W : Type 0} (net : Net Float64 W) (decode_ds_info : String → Result DsInfo)
    (decode_workloads : String → Result (List (PpStatResult Float64))) (now : W → ℕ)
    (wait : ℤ → W → Bool × W) (scrapes : W → List ℕ) where
  abbrev io : Collector Float64 (Collection Float64 W)
  io = prometheus_collector net decode_ds_info decode_workloads now wait scrapes

  abbrev IsKept : Collection Float64 W → Type 0
  IsKept = HasValid net decode_ds_info decode_workloads now wait scrapes

  collect_datasets-HasValid :
      (fuel n : ℕ) (interval : ℤ) (dss : List DsInfoEntry) (t : ℤ) (v : Collection Float64 W)
      → IsKept v
      → IsKept (collect_datasets io fuel (suc n) interval dss t v).1
  unfolding collect_datasets
  collect_datasets-HasValid fuel n interval [] t v h = h
  collect_datasets-HasValid fuel n interval (ds ∷ rest) t v h =
      let (r, v₁) = collect_dataset io fuel (suc n) interval ds t v in
      let h₁ =
        (collect_dataset-ends net decode_ds_info decode_workloads now wait scrapes fuel n interval
          ds t v h).1 in
      elim (Outcome-cases r) [
        | inl ((_, t₁), e) ↦
            rw (e, collect_datasets) (collect_datasets-HasValid fuel n interval rest t₁ v₁ h₁)
        | inr (inl e) ↦ rw (e, collect_datasets) h₁
        | inr (inr e) ↦ rw (e, collect_datasets) h₁
      ]

  if-HasValid :
      (b : Bool) (v v' : Collection Float64 W) → IsKept v → IsKept v' → IsKept (if b then v else v')
  if-HasValid true v v' h h' = h
  if-HasValid false v v' h h' = h'

  rest_of_period-left :
      (fuel n : ℕ) (interval next_time t : ℤ) (v : Collection Float64 W)
      → (rest_of_period io fuel n interval next_time t v).1
        ≡ (if ltb_ℤ (io.now v) next_time then (io.wait (next_time -ℤ io.now v) v).1 else v)
  unfolding rest_of_period
  rest_of_period-left fuel n interval next_time t v = ground arith

  rest_of_period-HasValid :
      (fuel n : ℕ) (interval next_time t : ℤ) (v : Collection Float64 W)
      → IsKept v
      → IsKept (rest_of_period io fuel n interval next_time t v).1
  rest_of_period-HasValid fuel n interval next_time t v h =
      let v' = (io.wait (next_time -ℤ io.now v) v).1 in
      subst IsKept (sym (rest_of_period-left fuel n interval next_time t v)) (
        if-HasValid (ltb_ℤ (io.now v) next_time) v' v
          (after_scrapes-IsValid (scrapes v'.host) v.sink h) h)

  -- A round of the loop, however it ends, leaves valid families valid.
  collect_round-HasValid :
      (fuel n : ℕ) (interval : ℤ) (v : Collection Float64 W)
      → IsKept v
      → IsKept (collect_round io fuel (suc n) interval v).1
  unfolding collect_round update_datasets
  collect_round-HasValid fuel n interval v h =
      let (r, v₁) = io.get_data_set_info v in
      let next_time = io.now v +ℤ sample_rate in
      let h₁ = after_scrapes-IsValid (scrapes v₁.host) v.sink h in
      elim (Result-cases r) [
        | inr (x, e) ↦ rw (e, collect_round) h₁
        | inl (di, e) ↦
            let start = io.update_datasets di v₁ in
            let (o, v₂) =
              collect_datasets io fuel (suc n) interval di.datasets (pos (10 * second)) start in
            let h₂ =
              collect_datasets-HasValid fuel n interval di.datasets (pos (10 * second)) start h₁ in
            elim (Outcome-cases o) [
              | inl ((_, t), p) ↦
                  rw (e, collect_round)
                    (rw (p, collect_round)
                      (rest_of_period-HasValid fuel (suc n) interval next_time t v₂ h₂))
              | inr (inl p) ↦ rw (e, collect_round) (rw (p, collect_round) h₂)
              | inr (inr p) ↦ rw (e, collect_round) (rw (p, collect_round) h₂)
            ]
      ]

  collect_rounds-HasValid_lem :
      (fuel n : ℕ) (interval : ℤ) (rounds : ℕ) (v : Collection Float64 W)
      → IsKept v
      → IsKept (collect_rounds io fuel (suc n) interval rounds v).1
  unfolding collect_rounds
  collect_rounds-HasValid_lem fuel n interval zero v h = h
  collect_rounds-HasValid_lem fuel n interval (suc k) v h =
      let (o, v₁) = collect_round io fuel (suc n) interval v in
      let h₁ = collect_round-HasValid fuel n interval v h in
      elim (Outcome-cases o) [
        | inl ((_, t), e) ↦
            rw (e, collect_rounds) (collect_rounds-HasValid_lem fuel n interval k v₁ h₁)
        | inr (inl e) ↦ rw (e, collect_rounds) h₁
        | inr (inr e) ↦ rw (e, collect_rounds) h₁
      ]

-- The sink that `Init` made has valid families after any number of rounds of the loop, whatever the
-- cluster answers, however long the waits are, and whenever the metrics are scraped.
pub collect_rounds-HasValid :
    {Float64 W : Type 0} (net : Net Float64 W) (decode_ds_info : String → Result DsInfo)
    (decode_workloads : String → Result (List (PpStatResult Float64))) (now : W → ℕ)
    (wait : ℤ → W → Bool × W) (scrapes : W → List ℕ) (register : W → Result Unit × W)
    (create_listener : String → W → Result Unit × W) (cluster : Cluster) (config : TomlConfig)
    (cl : ClusterConf) (w w' : W) (s : PrometheusSink Float64) (p : PrometheusClient)
    (serving : Serving) (fuel n : ℕ) (interval : ℤ) (rounds : ℕ)
    → init register create_listener cluster.cluster_name config cl w ≡ (ok (s, p, serving), w')
    → HasValid net decode_ds_info decode_workloads now wait scrapes
        (collect_rounds
          (prometheus_collector net decode_ds_info decode_workloads now wait scrapes)
          fuel
          (suc n)
          interval
          rounds
          (record { cluster = cluster; sink = s; host = w' })).1
unfolding new_sink
collect_rounds-HasValid net decode_ds_info decode_workloads now wait scrapes register
      create_listener cluster config cl w w' s p serving fuel n interval rounds e =
    collect_rounds-HasValid_lem net decode_ds_info decode_workloads now wait scrapes fuel n interval
      rounds (record { cluster = cluster; sink = s; host = w' })
      (subst (λ s'. IsValid s'.fam)
        (sym
          (init-made register create_listener cluster.cluster_name config cl w w' s p serving e).0)
        nil-IsValid)

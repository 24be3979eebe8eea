-- ===== src/Examples/Influx.antt =====
-- The InfluxDB back ends with libraries that keep what they are given, and a database that counts points.
use goppstats.Prelude.{ℕ, ◌+◌, List, [], ◌∷◌, none, true, ◌≡◌, ◌↔◌, refl}
use goppstats.Prelude.Result.{Result, ok}
use goppstats.Influx.{PointArgs, InfluxSink}
use goppstats.Influx.V1
use goppstats.Influx.V2
use goppstats.Influx.Agree.{AreAccepted, write_pp_stats-agree}
use goppstats.Examples.Data.{api, stat, stat_on_node_2, entry}

abbrev sink : InfluxSink
sink = record { cluster_name = "isi"; exports = record { enabled = true; path_by_id = [] } }

abbrev config : V1.BatchPointsConfig
config = record { database = "isi"; precision = "s" }

abbrev keep : PointArgs ℕ → Result (PointArgs ℕ)
keep args = ok args

unfoldable count : List (PointArgs ℕ) → ℕ → Result Unit × ℕ
count [] w = (ok tt, w)
count (p ∷ ps) w = count ps (w + 1)

write_pp_stats-agree_example :
    ((V1.write_pp_stats api keep
        (λ config. ok tt)
        (λ config. count)
        config
        entry
        (stat ∷ stat_on_node_2 ∷ [])
        sink
        0).1
      ≡ (V2.write_pp_stats api (λ a. a) count entry (stat ∷ stat_on_node_2 ∷ []) sink 0).1)
    × ((V1.write_pp_stats api keep
          (λ config. ok tt)
          (λ config. count)
          config
          entry
          (stat ∷ stat_on_node_2 ∷ [])
          sink
          0).2
        ≡ (V2.write_pp_stats api (λ a. a) count entry (stat ∷ stat_on_node_2 ∷ []) sink 0).2)
    × ((V1.write_pp_stats api keep
            (λ config. ok tt)
            (λ config. count)
            config
            entry
            (stat ∷ stat_on_node_2 ∷ [])
            sink
            0).0
          ≡ none
        ↔ (V2.write_pp_stats api (λ a. a) count entry (stat ∷ stat_on_node_2 ∷ []) sink 0).0 ≡ none)
unfolding AreAccepted
write_pp_stats-agree_example =
    write_pp_stats-agree api keep (λ a. a) (λ config. ok tt) (λ config. count) config entry
      (stat ∷ stat_on_node_2 ∷ []) sink 0 refl (refl, (refl, tt))

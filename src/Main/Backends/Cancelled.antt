-- ===== src/Main/Backends/Cancelled.antt =====
-- `statsloop` with any back end, once its context is cancelled.
use Prim.Native.String.{◌++◌}
use goppstats.Prelude.{
  ℕ, suc, ◌*◌, ◌≤◌, ◌<◌, String, List, Bool, true, false, ◌≡◌, refl, arith, inr,
}
use goppstats.Prelude.Int.{ℤ, int_eq, pos, ◌+ℤ◌, ◌≤ℤ◌}
use goppstats.Prelude.Format.{itoa}
use goppstats.Prelude.Result.{Result, ok, err, Error, ◌>>=◌}
use goppstats.Api.Types.{DsInfo, DsInfoEntry, PpStatResult}
use goppstats.Api.Client.{Cluster, Net, ds_path, pp_workload_path, export_path}
use goppstats.Api.Client.Cancelled.{IsNetCancelledAt, is_err, rest_get-IsGet}
use goppstats.Api.Client.Queries.{
  export_api, get_export_path_by_id, get_data_set_info, get_pp_stats,
}
use goppstats.Main.{second, Collector}
use goppstats.Main.Loop.Clocked.{IsCancelledAt, IsLong}
use goppstats.Main.Loop.{stopped}
use goppstats.Main.Backends.{
  Libraries, AnySink, discard, influx_db, influx_db_v2, prometheus, beside, init, write_pp_stats,
  Collection, collection_of, collector,
}
use goppstats.Main.Backends.Clocked.{prometheus-clock, influx_db-clock, influx_db_v2-clock}
use goppstats.Influx.V1.{BatchPointsConfig}
use goppstats.Main.Writer.{discard_write}
use goppstats.Main.Statsloop.{statsloop}
use goppstats.Main.Statsloop.Ends.{statsloop-stopped}
use goppstats.Config.{TomlConfig, ClusterConf}

is_err-bind :
    {A B : Type 0} (r : Result A) (f : A → Result B) → is_err r ≡ true → is_err (r >>= f) ≡ true
is_err-bind (ok a) f h = let no : ⊥ = ground (arith, h) in elim no [ ]
is_err-bind (err e) f h = refl

is_err-err : {A : Type 0} (r : Result A) → is_err r ≡ true → (e : Error) × (r ≡ err e)
is_err-err (ok a) h = let no : ⊥ = ground (arith, h) in elim no [ ]
is_err-err (err e) h = (e, refl)

module _ {Float64 W DbClient DbPoint V2Client WriteApi Point : Type 0}
    (libs : Libraries Float64 W DbClient DbPoint V2Client WriteApi Point) (net : Net Float64 W)
    (decode_ds_info : String → Result DsInfo)
    (decode_workloads : String → Result (List (PpStatResult Float64))) (now : W → ℕ)
    (wait : ℤ → W → Bool × W) (scrapes : W → List ℕ) where
  abbrev pub io : Collector Float64 (Collection Float64 DbClient WriteApi W)
  io = collector libs net decode_ds_info decode_workloads now wait scrapes

  abbrev pp_endpoint : String → String
  pp_endpoint name = pp_workload_path ++ "?degraded=true&nodes=all&dataset=" ++ name

  -- What the loop needs to end, of the libraries and of the host: the clock does not go back, a wait that
  -- passes takes its time, and after a deadline every request fails and no wait of a second or more passes.
  pub record IsHostCancelledAt (deadline : ℕ) : Type 0 where
    pub network : IsNetCancelledAt net now deadline
    pub after_write :
        (client : DbClient) (config : BatchPointsConfig) (points : List DbPoint) (w : W)
        → now w ≤ now (libs.write client config points w).1
    pub after_write_point :
        (api : WriteApi) (points : List Point) (w : W)
        → now w ≤ now (libs.write_point api points w).1
    pub after_wait : (d : ℤ) (w : W) → now w ≤ now (wait d w).1
    pub timed : (d : ℤ) (w : W) → (wait d w).0 ≡ true → (pos (now w) +ℤ d) ≤ℤ pos (now (wait d w).1)
    pub no_wait : (d : ℤ) (w : W) → deadline < now w → IsLong d → (wait d w).0 ≡ false

  after_export :
      (deadline : ℕ) (laws : IsHostCancelledAt deadline) (id : ℤ) (cw : Cluster × W)
      → now cw.1 ≤ now (get_export_path_by_id net id cw).1.1
  unfolding get_export_path_by_id
  after_export deadline laws id (c, w) =
      (rest_get-IsGet net now deadline laws.network c (export_path ++ "/" ++ itoa id) w).0

  write_pp_stats-clock :
      (deadline : ℕ) (laws : IsHostCancelledAt deadline) (t : ℕ) (ds : DsInfoEntry)
      (stats : List (PpStatResult Float64)) (s : AnySink libs) (cw : Cluster × W)
      → now cw.1 ≤ now (write_pp_stats libs net t ds stats s cw).2.1
  unfolding write_pp_stats discard_write
  write_pp_stats-clock deadline laws t ds stats (discard s) cw = omega arith
  write_pp_stats-clock deadline laws t ds stats (influx_db s bp client) cw =
      influx_db-clock (export_api net) (λ x. now x.1) (after_export deadline laws) libs.new_db_point
        libs.new_batch_points (λ config points. beside (libs.write client config points))
        (λ config points x. laws.after_write client config points x.1) bp ds stats s cw
  write_pp_stats-clock deadline laws t ds stats (influx_db_v2 s api) cw =
      influx_db_v2-clock (export_api net) (λ x. now x.1) (after_export deadline laws) libs.new_point
        (λ points. beside (libs.write_point api points))
        (λ points x. laws.after_write_point api points x.1) ds stats s cw
  write_pp_stats-clock deadline laws t ds stats (prometheus s) cw =
      prometheus-clock (export_api net) (λ x. now x.1) (after_export deadline laws) t ds stats s cw

  collector-IsCancelledAt :
      (deadline : ℕ) → IsHostCancelledAt deadline → IsCancelledAt io (λ v. now v.host) deadline
  unfolding get_data_set_info get_pp_stats get_export_path_by_id
  collector-IsCancelledAt deadline laws =
      let ds_got = λ (v : Collection Float64 DbClient WriteApi W).
        rest_get-IsGet net now deadline laws.network v.cluster ds_path v.host in
      let pp_got = λ (name : String). λ (v : Collection Float64 DbClient WriteApi W).
        rest_get-IsGet net now deadline laws.network v.cluster (pp_endpoint name) v.host in
      record {
        now = λ v. refl;
        after_info = λ v. (ds_got v).0;
        after_read = λ name v. (pp_got name v).0;
        after_update = λ di v. omega arith;
        after_write = λ ds sr v.
            write_pp_stats-clock deadline laws (now v.host) ds sr v.sink (v.cluster, v.host);
        after_wait = λ d v. laws.after_wait d v.host;
        timed = λ d v p. laws.timed d v.host p;
        no_info = λ v b. is_err-err _ (is_err-bind _ decode_ds_info ((ds_got v).1 b));
        no_read = λ name t v b long.
            let (later, failed) = pp_got name v in
            let (e, q) = is_err-err _ (is_err-bind _ decode_workloads (failed b)) in
            (e, q, inr (laws.no_wait t _ (omega arith) long));
      }

  pub statsloop-ended :
      (quoted : String → String) (deadline fuel looks i : ℕ) (config : TomlConfig)
      (cl : ClusterConf) (w : W)
      → IsHostCancelledAt deadline
      → config.global.processor_retry_intvl ≡ pos i
      → 1 ≤ i
      → i ≤ 9223372036
      → deadline < fuel * second
      → deadline < looks * second
      → (statsloop net quoted
          (init libs config cl)
          io
          (collection_of libs net decode_ds_info decode_workloads now wait scrapes)
          (λ v. v.host)
          (suc fuel)
          (suc looks)
          libs.lookup_env
          config.global
          cl
          w).0
        ≡ stopped
  statsloop-ended quoted deadline fuel looks i config cl w laws =
      statsloop-stopped net quoted (init libs config cl) io
        (collection_of libs net decode_ds_info decode_workloads now wait scrapes) (λ v. v.host)
        (λ v. now v.host) deadline fuel looks i libs.lookup_env config.global cl w
        (collector-IsCancelledAt deadline laws)

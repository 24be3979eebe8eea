-- ===== src/Examples/Statsloop.antt =====
-- The collection from a cluster whose requests fail from ten seconds on, as the context is cancelled.
use goppstats.Prelude.{
  ℕ, List, suc, ◌+◌, ◌*◌, [], ◌∷◌, Bool, true, false, none, ◌≡◌, refl, arith, ltb, if◌then◌else◌,
}
use goppstats.Prelude.Int.{ℤ, pos, pos_part, +ℤ_parts}
use goppstats.Prelude.Result.{ok, err, canceled}
use goppstats.Config.{ClusterConf}
use goppstats.Config.Read.{secret_from_env}
use goppstats.Api.Client.{Cluster, Net}
use goppstats.Main.{second}
use goppstats.Main.Loop.{stopped}
use goppstats.Main.Backends.{Libraries, init, collector, collection_of, prometheus}
use goppstats.Main.Backends.Ready.{start_collection-ready}
use goppstats.Main.Cluster.{new_cluster}
use goppstats.Prelude.Format.{itoa}
use goppstats.Api.Json.{get, as_object, as_string}
use goppstats.Api.Client.Session.{initialize}
use goppstats.Api.Client.Get.{rest_get, get_fresh, get_loop, needs_auth, new_get_request, end_get}
use goppstats.Api.Client.Queries.{connect, open_session, get_cluster_config, apply_config}
use goppstats.Prometheus.Server.{new_sink}
use goppstats.Main.Backends.Cancelled.{IsHostCancelledAt, statsloop-ended}
use goppstats.Influx.{PointArgs}
use goppstats.Main.Statsloop.{statsloop}
use goppstats.Main.Writer.{get_db_writer, start_collection}
use goppstats.Examples.Collection.{decode_ds_info, decode_workloads}
use goppstats.Examples.Connect
use goppstats.Examples.Network.{answer_200}
use goppstats.Examples.Program.{cluster_conf, toml}

-- The host's state is its clock.
abbrev net : Net ℕ ℕ
net = record Connect.net {
  send = λ req w. (if ltb (10 * second) w then err canceled else ok answer_200, suc w);
}

abbrev wait : ℤ → ℕ → Bool × ℕ
wait d w = if ltb (10 * second) w then (false, w) else (true, w + pos_part d)

-- The libraries do what they are asked to; a write takes a second.
abbrev libs : Libraries ℕ ℕ Unit (PointArgs ℕ) Unit Unit (PointArgs ℕ)
libs = record {
  lookup_env = λ name. none;
  new_http_client = λ config. ok tt;
  ping = λ client w. (ok tt, w);
  new_batch_points = λ config. ok tt;
  new_db_point = λ args. ok args;
  write = λ client config points w. (ok tt, w + second);
  new_client = λ url token. tt;
  ping_v2 = λ client w. (ok true, w);
  write_api = λ client org bucket. tt;
  new_point = λ args. args;
  write_point = λ api points w. (ok tt, w + second);
  register = λ w. (ok tt, w);
  create_listener = λ addr w. (ok tt, w);
}

abbrev scrapes : ℕ → List ℕ
scrapes w = w ∷ []

laws :
    IsHostCancelledAt libs net decode_ds_info decode_workloads (λ w. w) wait scrapes (10 * second)
laws = record {
  network = record {
    after_send = λ req w. omega arith;
    after_wait = λ secs w. omega arith;
    no_send = λ req w l. (canceled, ground (arith, l));
  };
  after_write = λ client config points w. omega arith;
  after_write_point = λ api points w. omega arith;
  after_wait = λ d w. ground arith;
  timed = λ d w p. ground (arith, p, +ℤ_parts (pos w) d);
  no_wait = λ d w l long. ground (arith, l);
}

-- It connects without a session.
abbrev conf : ClusterConf
conf = record cluster_conf { auth_type = "basic-auth" }

statsloop-ended_example :
    (statsloop net
      (λ s. s)
      (init libs toml conf)
      (collector libs net decode_ds_info decode_workloads (λ w. w) wait scrapes)
      (collection_of libs net decode_ds_info decode_workloads (λ w. w) wait scrapes)
      (λ v. v.host)
      12
      12
      (λ name. none)
      toml.global
      conf
      0).0
    ≡ stopped
statsloop-ended_example =
    statsloop-ended libs net decode_ds_info decode_workloads (λ w. w) wait scrapes (λ s. s)
      (10 * second) 11 11 5 toml conf 0 laws refl (omega arith) (omega arith) (omega arith)
      (omega arith)

-- The client that has connected.
abbrev client : Cluster
client = record Connect.connected { password = "secret"; max_retries = pos 8 }

start_collection-ready_example :
    ("prometheus" ≡ toml.global.processor)
    × ((new_sink {Float64 = ℕ} "isi" toml).cluster_name ≡ client.cluster_name)
    × ((c₀ : Cluster) × (new_cluster libs.lookup_env toml.global conf ≡ ok c₀)
        × ((connect net c₀ 0).0 ≡ ok tt)
        × ((connect net c₀ 0).1 ≡ client))
unfolding start_collection new_cluster init get_db_writer connect initialize open_session
    get_cluster_config apply_config rest_get get_fresh get_loop needs_auth new_get_request end_get
    get as_object as_string itoa secret_from_env
start_collection-ready_example =
    start_collection-ready libs net (λ s. s) toml conf client (prometheus (new_sink "isi" toml)) 0 1
      refl

-- ===== src/Examples/Program.antt =====
-- A configuration of the whole program, and runs of its main loop.
use goppstats.Prelude.{ℕ, ◌+◌, ◌≤◌, ◌⊎◌, In, [], ◌∷◌, none, some, true, false, ◌≡◌, refl, string_eq}
use goppstats.Prelude.Int.{pos}
use goppstats.Prelude.Result.{Result, err, message}
use goppstats.Config.{TomlConfig, ClusterConf}
use goppstats.Main.Run.{
  Program, ended, start, enabled_from, on_sigterm, on_reload_request, on_collector_end, without,
  on_reload, after_drain, begin_run, reload_request, collector_ends, takes_reload, on_config_read,
  config_read, run_begins, drained_for_reload, Reaches, here, then_step,
}
use goppstats.Main.Run.Kept.{IsKept, Reaches-IsKept}
use goppstats.Main.Run.Ends.{own_steps, steps_left, CanGoOn, on_sigterm-ends}
use goppstats.Main.Run.Shutdown.{IsShutdownOf, Reaches-IsShutdownOf}

abbrev pub cluster_conf : ClusterConf
cluster_conf = record {
  hostname = "cluster";
  username = "user";
  password = "secret";
  auth_type = "session";
  ssl_check = true;
  disabled = false;
  prometheus_port = some 9090;
  preserve_case = none;
}

-- Two clusters, of which the first is disabled.
abbrev pub toml : TomlConfig
toml = record {
  global = record {
    version = "0.32";
    processor = "prometheus";
    processor_max_retries = pos 8;
    processor_retry_intvl = pos 5;
    min_update_invtl = pos 30;
    max_retries = pos 8;
    lookup_export_ids = false;
    preserve_case = false;
  };
  logging = record {
    log_file = some "goppstats.log";
    log_file_format = some "JSON";
    log_level = none;
    log_to_stdout = true;
  };
  influx_db = record {
    host = "db";
    port = "8086";
    database = "isi";
    authenticated = false;
    username = "";
    password = "";
  };
  influx_db_v2 = record { host = "db"; port = "8086"; org = "o"; bucket = "b"; token = "t" };
  prometheus = record {
    authenticated = true;
    username = "scraper";
    password = "pass";
    tls_cert = "";
    tls_key = "";
    instance_label_name = none;
  };
  prom_sd = record { enabled = true; listen_addr = "10.0.0.1"; sd_port = 9999 };
  clusters =
      record cluster_conf { disabled = true; prometheus_port = some 9091 } ∷ cluster_conf ∷ [];
}

abbrev no_file : Result TomlConfig
no_file = err (message "no such file")

-- A reload is asked for and taken, and the collector ends.
abbrev drained : Program
drained = on_collector_end 1 (on_reload (on_reload_request (start toml)))

-- The file cannot be read: a second run.
abbrev reloaded : Program
reloaded = begin_run (on_config_read no_file (after_drain drained))

start-reloaded : Reaches (start toml) reloaded
unfolding on_reload_request on_reload on_collector_end without begin_run enabled_from after_drain
    on_config_read
start-reloaded =
    then_step
      (then_step
        (then_step
          (then_step
            (then_step (then_step (here (start toml)) (reload_request (start toml)))
              (takes_reload _ refl refl))
            (collector_ends 1 _))
          (drained_for_reload drained refl refl))
        (config_read no_file (after_drain drained) refl))
      (run_begins (on_config_read no_file (after_drain drained)) refl)

Reaches-IsKept_example : IsKept reloaded
Reaches-IsKept_example = Reaches-IsKept toml reloaded start-reloaded

-- The signal to end comes while the loop waits for a reload.
abbrev cancelled : Program
cancelled = on_sigterm (on_reload (on_reload_request (start toml)))

abbrev ended_after : Program
ended_after = after_drain (on_collector_end 1 cancelled)

cancelled-ended_after : Reaches cancelled ended_after
unfolding on_sigterm on_reload_request on_reload on_collector_end without begin_run enabled_from
cancelled-ended_after =
    then_step (then_step (here cancelled) (collector_ends 1 cancelled))
      (drained_for_reload (on_collector_end 1 cancelled) refl refl)

Reaches-IsShutdownOf_example : IsShutdownOf cancelled ended_after
Reaches-IsShutdownOf_example =
    Reaches-IsShutdownOf cancelled-ended_after (unfold on_sigterm in refl)

on_sigterm-ends_example :
    (ended_after.is_run_cancelled ≡ true)
    × (own_steps cancelled-ended_after + steps_left ended_after.phase ≤ 1)
    × (((ci : ℕ) × In ci ended_after.collectors)
        ⊎ (((n : ℕ) × (ended_after.phase ≡ ended n)) ⊎ CanGoOn ended_after))
unfolding on_reload
on_sigterm-ends_example =
    on_sigterm-ends (on_reload (on_reload_request (start toml))) ended_after cancelled-ended_after

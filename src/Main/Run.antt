-- ===== src/Main/Run.antt =====
-- The main program's loop: the runs of the collectors, the reload of the configuration, and the end
-- (main.go).
pub mod Enabled
pub mod Kept
pub mod Shutdown
pub mod Ends
pub mod Without
use goppstats.Prelude.{
  ℕ, suc, List, [], ◌∷◌, Bool, true, false, ◌&&◌, ◌==◌, nat_eq, string_eq, ◌≡◌, if◌then◌else◌, ◌⊎◌,
  inl, inr,
}
use goppstats.Prelude.Result.{Result, ok, err}
use goppstats.Config.{TomlConfig, ClusterConf, LoggingConfig}
use goppstats.Logging.Setup.{Setup, exits, logs}

-- Where the loop stands: at its `select`; at `<-done` after a reload, then at its reading of the
-- configuration, at `setupLogging` and at the head of the loop; at `<-done` after the end of the context;
-- or past the program's end, with its status.
pub data Phase : Type 0 where
  selects drains_for_reload reads_config sets_up_logging starts_run drains_for_end : Phase
  ended : ℕ → Phase

-- The configuration, the collectors that have not ended (by the numbers of their clusters), whether the
-- reload channel is full, whether the context and the run's own context are cancelled, whether the run
-- has tried to start the service discovery, and how many runs have begun.
pub record Program : Type 0 where
  pub conf : TomlConfig
  pub collectors : List ℕ
  pub reload : Bool
  pub is_cancelled : Bool
  pub is_run_cancelled : Bool
  pub discovers : Bool
  pub runs : ℕ
  pub phase : Phase

-- The clusters that are not disabled, by number.
unfoldable pub enabled_from : ℕ → List ClusterConf → List ℕ
enabled_from ci [] = []
enabled_from ci (cl ∷ rest) =
    let later = enabled_from (suc ci) rest in if cl.disabled then later else ci ∷ later

-- Whether a run starts the service discovery of Prometheus; an error of it is logged only.
unfoldable wants_sd : TomlConfig → Bool
wants_sd conf = conf.global.processor == "prometheus" && conf.prom_sd.enabled

-- The head of the outer loop: a new run, with a context of its own under the program's.
unfoldable pub begin_run : Program → Program
unfolding enabled_from wants_sd
begin_run s = record s {
  collectors = enabled_from 0 s.conf.clusters;
  is_run_cancelled = s.is_cancelled;
  discovers = wants_sd s.conf;
  runs = suc s.runs;
  phase = selects;
}

abbrev pub start : TomlConfig → Program
start conf = begin_run (record {
  conf = conf;
  collectors = [];
  reload = false;
  is_cancelled = false;
  is_run_cancelled = false;
  discovers = false;
  runs = 0;
  phase = selects;
})

-- What the start of the program comes to: its end with a status, or its loop.
pub data Launch : Type 0 where
  ends : ℕ → Launch
  runs_from : Program → Launch

-- `main` up to its loop: whether the version is asked for, what `mustReadConfig` makes of the
-- configuration file, and what can be logged to.
unfoldable launch : Bool → ℕ ⊎ TomlConfig → (LoggingConfig → Setup) → Launch
launch version_flag file setup_logging = if version_flag then ends 0 else elim file [
  | inl status ↦ ends status
  | inr conf ↦ elim (setup_logging conf.logging) [
    | exits status ↦ ends status
    | logs level handlers ↦ runs_from (start conf)
  ]
]

-- SIGTERM or an interrupt: the context is cancelled, and with it that of the run.
unfoldable pub on_sigterm : Program → Program
on_sigterm s = record s { is_cancelled = true; is_run_cancelled = true }

-- SIGHUP, or the watcher of the configuration file: a full channel is left as it is.
unfoldable pub on_reload_request : Program → Program
on_reload_request s = record s { reload = true }

unfoldable pub without : ℕ → List ℕ → List ℕ
without ci [] = []
without ci (c ∷ cs) = let rest = without ci cs in if c == ci then rest else c ∷ rest

-- A collector ends.
unfoldable pub on_collector_end : ℕ → Program → Program
unfolding without
on_collector_end ci s = record s { collectors = without ci s.collectors }

-- `case <-reload`, up to `<-done`
unfoldable pub on_reload : Program → Program
on_reload s = record s { reload = false; is_run_cancelled = true; phase = drains_for_reload }

-- `case <-done`
unfoldable pub on_done : Program → Program
on_done s = record s { is_run_cancelled = true; phase = ended 0 }

-- `case <-ctx.Done()`, up to `<-done`
unfoldable pub on_cancelled : Program → Program
on_cancelled s = record s { is_run_cancelled = true; phase = drains_for_end }

-- What follows `<-done` after a reload: the end if the context is cancelled.
unfoldable pub after_drain : Program → Program
after_drain s =
    if s.is_cancelled then record s { phase = ended 0 } else record s { phase = reads_config }

-- `readConfig`: a configuration that can be read is taken over, else there is the next run.
unfoldable pub on_config_read : Result TomlConfig → Program → Program
on_config_read (err e) s = record s { phase = starts_run }
on_config_read (ok conf) s = record s { conf = conf; phase = sets_up_logging }

-- `setupLogging` with the configuration that was taken over: it may end the program.
unfoldable pub on_logging_set_up : (LoggingConfig → Setup) → Program → Program
on_logging_set_up setup_logging s = elim (setup_logging s.conf.logging) [
  | exits status ↦ record s { phase = ended status }
  | logs level handlers ↦ record s { phase = starts_run }
]

-- One step of the program or of the world around it: `select` takes any case that is ready, and what the
-- new configuration is and where it can be logged to is the world's.
pub data Step : Program → Program → Type 0 where
  sigterm : (s : Program) → Step s (on_sigterm s)
  reload_request : (s : Program) → Step s (on_reload_request s)
  collector_ends : (ci : ℕ) (s : Program) → Step s (on_collector_end ci s)
  takes_reload : (s : Program) → s.phase ≡ selects → s.reload ≡ true → Step s (on_reload s)
  takes_done : (s : Program) → s.phase ≡ selects → s.collectors ≡ [] → Step s (on_done s)
  takes_cancelled :
      (s : Program) → s.phase ≡ selects → s.is_cancelled ≡ true → Step s (on_cancelled s)
  drained_for_reload :
      (s : Program) → s.phase ≡ drains_for_reload → s.collectors ≡ [] → Step s (after_drain s)
  config_read :
      (new_conf : Result TomlConfig) (s : Program)
      → s.phase ≡ reads_config
      → Step s (on_config_read new_conf s)
  logging_set_up :
      (setup_logging : LoggingConfig → Setup) (s : Program)
      → s.phase ≡ sets_up_logging
      → Step s (on_logging_set_up setup_logging s)
  run_begins : (s : Program) → s.phase ≡ starts_run → Step s (begin_run s)
  drained_for_end :
      (s : Program)
      → s.phase ≡ drains_for_end
      → s.collectors ≡ []
      → Step s (record s { phase = ended 0 })

pub data Reaches : Program → Program → Type 0 where
  here : (s : Program) → Reaches s s
  then_step : {s s₁ s₂ : Program} → Reaches s s₁ → Step s₁ s₂ → Reaches s s₂

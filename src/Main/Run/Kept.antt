-- ===== src/Main/Run/Kept.antt =====
-- What holds of the program however its steps and the world's go.
use goppstats.Prelude.{
  ℕ, List, [], Bool, true, false, ◌≡◌, ◌≢◌, refl, ap, subst, arith, In, inl, inr, ◌⊎◌, nat_eq,
  if◌then◌else◌,
}
use goppstats.Prelude.Int.{ℤ}
use goppstats.Prelude.Result.{Result, ok, err}
use goppstats.Config.{TomlConfig, LoggingConfig}
use goppstats.Logging.Setup.{Setup, Handler, exits, logs}
use goppstats.Main.Run.Enabled.{IsEnabled, enabled_from-IsEnabledFrom}
use goppstats.Main.Run.Without.{In-without}
use goppstats.Main.Run.{
  selects, ended, Program, begin_run, start, on_sigterm, on_reload_request, without,
  on_collector_end, on_reload, on_done, on_cancelled, after_drain, on_config_read,
  on_logging_set_up, Step, sigterm, reload_request, collector_ends, takes_reload, takes_done,
  takes_cancelled, drained_for_reload, config_read, logging_set_up, run_begins, drained_for_end,
  Phase, drains_for_reload, drains_for_end, reads_config, sets_up_logging, starts_run, Reaches,
  here, then_step,
}

-- From the end of one run's collectors to the start of the next run
abbrev is_between : Phase → Bool
is_between selects = false
is_between drains_for_reload = false
is_between reads_config = true
is_between sets_up_logging = true
is_between starts_run = true
is_between drains_for_end = false
is_between (ended status) = false

-- Every collector was started for a cluster that the configuration in force enables; a cancelled
-- context cancels the run's; a loop that waits for its collectors has cancelled them; none is left
-- between two runs; and the program ends with none left.
pub record IsKept (s : Program) : Type 0 where
  pub known : (ci : ℕ) → In ci s.collectors → IsEnabled s.conf ci
  pub cancelled : s.is_cancelled ≡ true → s.is_run_cancelled ≡ true
  pub drains : (s.phase ≡ selects) ⊎ (s.is_run_cancelled ≡ true)
  pub between : is_between s.phase ≡ true → s.collectors ≡ []
  pub left : (status : ℕ) → s.phase ≡ ended status → s.collectors ≡ []

begin_run-IsKept : (s : Program) → IsKept (begin_run s)
unfolding begin_run
begin_run-IsKept s = record {
  known = λ ci m. enabled_from-IsEnabledFrom ci 0 s.conf.clusters m;
  cancelled = λ e. e;
  drains = inl refl;
  between = λ e. let no : ⊥ = ground (arith, e) in elim no [ ];
  left = λ n e. let no : ⊥ = ground (arith, e) in elim no [ ];
}

-- With no collector left, the loop may go on between the runs, or end.
passed-IsKept :
    (s : Program) (conf : TomlConfig) (phase : Phase)
    → s.collectors ≡ []
    → s.is_run_cancelled ≡ true
    → IsKept (record s { conf = conf; phase = phase })
passed-IsKept s conf phase e c = record {
  known = λ ci m. elim (subst (In ci) e m) [ ];
  cancelled = λ _. c;
  drains = inr c;
  between = λ _. e;
  left = λ n q. e;
}

-- A loop that waits has cancelled its collectors.
waits-lem : {s : Program} → IsKept s → s.phase ≢ selects → s.is_run_cancelled ≡ true
waits-lem k p = elim k.drains [ inl q ↦ elim (p q) [ ] | inr c ↦ c ]

if-IsKept : (b : Bool) {s s' : Program} → IsKept s → IsKept s' → IsKept (if b then s else s')
if-IsKept true k k' = k
if-IsKept false k k' = k'

Setup-cases :
    (r : Setup)
    → ((status : ℕ) × (r ≡ exits status))
      ⊎ ((level : ℤ) × (hs : List Handler) × (r ≡ logs level hs))
Setup-cases (exits status) = inl (status, refl)
Setup-cases (logs level hs) = inr (level, hs, refl)

after_drain-IsKept :
    (s : Program) → s.collectors ≡ [] → s.is_run_cancelled ≡ true → IsKept (after_drain s)
unfolding after_drain
after_drain-IsKept s e c =
    if-IsKept s.is_cancelled (passed-IsKept s s.conf (ended 0) e c)
      (passed-IsKept s s.conf reads_config e c)

on_config_read-IsKept :
    (new_conf : Result TomlConfig) (s : Program)
    → s.collectors ≡ []
    → s.is_run_cancelled ≡ true
    → IsKept (on_config_read new_conf s)
unfolding on_config_read
on_config_read-IsKept (err m) s e c = passed-IsKept s s.conf starts_run e c
on_config_read-IsKept (ok conf) s e c = passed-IsKept s conf sets_up_logging e c

on_logging_set_up-IsKept :
    (setup_logging : LoggingConfig → Setup) (s : Program)
    → s.collectors ≡ []
    → s.is_run_cancelled ≡ true
    → IsKept (on_logging_set_up setup_logging s)
unfolding on_logging_set_up
on_logging_set_up-IsKept setup_logging s e c = elim (Setup-cases (setup_logging s.conf.logging)) [
  | inl (status, x) ↦ rw (x, on_logging_set_up) (passed-IsKept s s.conf (ended status) e c)
  | inr (level, handlers, x) ↦ rw (x, on_logging_set_up) (passed-IsKept s s.conf starts_run e c)
]

Step-IsKept : {s s' : Program} → Step s s' → IsKept s → IsKept s'
unfolding without on_sigterm on_reload_request on_collector_end on_reload on_done on_cancelled
Step-IsKept (sigterm s) k = record {
  known = k.known;
  cancelled = λ _. refl;
  drains = inr refl;
  between = k.between;
  left = k.left;
}
Step-IsKept (reload_request s) k = record {
  known = k.known;
  cancelled = k.cancelled;
  drains = k.drains;
  between = k.between;
  left = k.left;
}
Step-IsKept (collector_ends ci s) k = record {
  known = λ c m. let (i, d) = In-without c ci s.collectors m in k.known c i;
  cancelled = k.cancelled;
  drains = k.drains;
  between = λ e. ap (without ci) (k.between e);
  left = λ n e. ap (without ci) (k.left n e);
}
Step-IsKept (takes_reload s p r) k = record {
  known = k.known;
  cancelled = λ _. refl;
  drains = inr refl;
  between = λ e. let no : ⊥ = ground (arith, e) in elim no [ ];
  left = λ n e. let no : ⊥ = ground (arith, e) in elim no [ ];
}
Step-IsKept (takes_done s p e) k = record {
  known = k.known;
  cancelled = λ _. refl;
  drains = inr refl;
  between = λ _. e;
  left = λ n q. e;
}
Step-IsKept (takes_cancelled s p c) k = record {
  known = k.known;
  cancelled = λ _. refl;
  drains = inr refl;
  between = λ e. let no : ⊥ = ground (arith, e) in elim no [ ];
  left = λ n e. let no : ⊥ = ground (arith, e) in elim no [ ];
}
Step-IsKept (drained_for_reload s p e) k =
    after_drain-IsKept s e (waits-lem k (λ q. ground (arith, p, q)))
Step-IsKept (config_read new_conf s p) k =
    on_config_read-IsKept new_conf s (k.between (ground (arith, p)))
      (waits-lem k (λ q. ground (arith, p, q)))
Step-IsKept (logging_set_up setup_logging s p) k =
    on_logging_set_up-IsKept setup_logging s (k.between (ground (arith, p)))
      (waits-lem k (λ q. ground (arith, p, q)))
Step-IsKept (run_begins s p) k = begin_run-IsKept s
Step-IsKept (drained_for_end s p e) k = record {
  known = k.known;
  cancelled = k.cancelled;
  drains = inr (waits-lem k (λ q. ground (arith, p, q)));
  between = λ _. e;
  left = λ n q. e;
}

Reaches-IsKept_lem : {s₀ s : Program} → Reaches s₀ s → IsKept s₀ → IsKept s
Reaches-IsKept_lem (here s) k = k
Reaches-IsKept_lem (then_step r step) k = Step-IsKept step (Reaches-IsKept_lem r k)

-- From the start, whatever steps are taken: every collector was started for a cluster that the
-- configuration in force enables; a cancelled context cancels the run's; a loop past its `select` has
-- cancelled its collectors; none is left between two runs; and the program ends with none left.
pub Reaches-IsKept : (conf : TomlConfig) (s : Program) → Reaches (start conf) s → IsKept s
Reaches-IsKept conf s r = Reaches-IsKept_lem r (begin_run-IsKept _)

-- ===== src/Main/Reload/Pending.antt =====
-- What is pending, for the program and in the events of its configuration file.
use mathlib.Core.List
use goppstats.Prelude.{
  ℕ, List, [], ◌∷◌, Bool, true, false, ◌&&◌, ◌||◌, Option, none, some, ◌≡◌, refl, arith,
}
use goppstats.Prelude.Result.{Result, ok, err}
use goppstats.Config.{TomlConfig}
use goppstats.ConfigWatcher.{FileEvent, is_replacement, sets_timer}
use goppstats.Main.Run
use goppstats.Main.Run.{
  Phase, selects, drains_for_reload, drains_for_end, ended, Program, on_sigterm, on_reload_request,
  on_collector_end, on_reload, on_done, on_cancelled, after_drain, on_config_read,
  on_logging_set_up, begin_run, reads_config, sets_up_logging, starts_run,
}
use goppstats.Main.Reload.{reads}

abbrev pub is_draining : Phase → Bool
is_draining selects = false
is_draining drains_for_reload = true
is_draining reads_config = true
is_draining sets_up_logging = false
is_draining starts_run = false
is_draining drains_for_end = false
is_draining (ended status) = false

abbrev pub is_ending : Phase → Bool
is_ending selects = false
is_ending drains_for_reload = false
is_ending reads_config = false
is_ending sets_up_logging = false
is_ending starts_run = false
is_ending drains_for_end = true
is_ending (ended status) = true

-- The program is going to end, or to read the file.
abbrev pub is_pending : Program → Bool
is_pending p = p.reload || (is_draining p.phase || (p.is_cancelled || is_ending p.phase))

abbrev pub is_set : Option ℕ → Bool
is_set none = false
is_set (some deadline) = true

abbrev pub is_some : List FileEvent → Bool
is_some [] = false
is_some (e ∷ rest) = true

unfoldable pub replaces : List FileEvent → Bool
replaces [] = false
replaces (e ∷ rest) = is_replacement e || replaces rest

unfoldable pub all_set : List FileEvent → Bool
all_set [] = true
all_set (e ∷ rest) = sets_timer e && all_set rest

pub all_set-append :
    (e : FileEvent) (es : List FileEvent)
    → all_set es ≡ true
    → sets_timer e ≡ true
    → all_set (List.◌++◌ es (e ∷ [])) ≡ true
unfolding all_set
all_set-append e [] a t = ground (arith, t)
all_set-append e (x ∷ es) a t = ground (arith, a, all_set-append e es)

pub replaces-append :
    (e : FileEvent) (es : List FileEvent)
    → replaces (List.◌++◌ es (e ∷ [])) ≡ (replaces es || is_replacement e)
unfolding replaces
replaces-append e [] = ground arith
replaces-append e (x ∷ es) = ground (arith, replaces-append e es)

pub is_some-append : (e : FileEvent) (es : List FileEvent) → is_some (List.◌++◌ es (e ∷ [])) ≡ true
is_some-append e [] = refl
is_some-append e (x ∷ es) = refl

pub replaces-is_some : (es : List FileEvent) → replaces es ≡ true → is_some es ≡ true
unfolding replaces
replaces-is_some [] r = r
replaces-is_some (e ∷ es) r = refl

-- The program's own steps keep what is pending, and a cancelled context.
pub pending-acts :
    {p p' : Program} (step : Run.Step p p')
    → reads step ≡ false
    → is_pending p ≡ true
    → is_pending p' ≡ true
unfolding reads on_sigterm on_reload_request on_collector_end on_reload on_done on_cancelled
    after_drain on_logging_set_up begin_run
pending-acts (Run.sigterm s) r q = ground arith
pending-acts (Run.reload_request s) r q = refl
pending-acts (Run.collector_ends ci s) r q = q
pending-acts (Run.takes_reload s p c) r q = refl
pending-acts (Run.takes_done s p e) r q = ground arith
pending-acts (Run.takes_cancelled s p c) r q = ground arith
pending-acts (Run.drained_for_reload s p e) r q = ground arith
pending-acts (Run.config_read new_conf s p) r q = let no : ⊥ = ground (arith, r) in elim no [ ]
pending-acts (Run.logging_set_up setup_logging s p) r q = ground (arith, p, q)
pending-acts (Run.run_begins s p) r q = ground (arith, p, q)
pending-acts (Run.drained_for_end s p e) r q = ground arith

pub cancelled-acts :
    {p p' : Program} (step : Run.Step p p')
    → reads step ≡ false
    → p.is_cancelled ≡ true
    → p'.is_cancelled ≡ true
unfolding reads on_sigterm on_reload_request on_collector_end on_reload on_done on_cancelled
    after_drain on_logging_set_up begin_run
cancelled-acts (Run.sigterm s) r q = refl
cancelled-acts (Run.reload_request s) r q = q
cancelled-acts (Run.collector_ends ci s) r q = q
cancelled-acts (Run.takes_reload s p c) r q = q
cancelled-acts (Run.takes_done s p e) r q = q
cancelled-acts (Run.takes_cancelled s p c) r q = q
cancelled-acts (Run.drained_for_reload s p e) r q = ground (arith, q)
cancelled-acts (Run.config_read new_conf s p) r q = let no : ⊥ = ground (arith, r) in elim no [ ]
cancelled-acts (Run.logging_set_up setup_logging s p) r q = ground (arith, q)
cancelled-acts (Run.run_begins s p) r q = q
cancelled-acts (Run.drained_for_end s p e) r q = q

pub cancelled-on_config_read :
    (new_conf : Result TomlConfig) (p : Program)
    → (on_config_read new_conf p).is_cancelled ≡ p.is_cancelled
unfolding on_config_read
cancelled-on_config_read (err e) p = refl
cancelled-on_config_read (ok conf) p = refl

-- ===== src/Main/Reload/InForce.antt =====
-- How a change of the configuration file comes into force.
use mathlib.Core.List
use goppstats.Prelude.{ℕ, ◌+◌, suc, List, [], ◌∷◌, true, false, inl, ◌≡◌, refl, ap, ◌∙◌, arith}
use goppstats.Prelude.Int.{ℤ}
use goppstats.Prelude.Result.{ok}
use goppstats.Config.{TomlConfig, LoggingConfig}
use goppstats.ConfigWatcher.{FileEvent, sets_timer, debounce_delay}
use goppstats.Logging.Setup.{Setup, Handler, logs}
use goppstats.Main.Run
use goppstats.Main.Run.{
  selects, drains_for_reload, reads_config, sets_up_logging, starts_run, on_reload,
  on_reload_request, on_collector_end, after_drain, on_config_read, on_logging_set_up, begin_run,
}
use goppstats.Main.Run.Without.{all_without, all_without-none}
use goppstats.Main.Reload.{System, reads, on_change, on_act, on_read, acts, reads_file}
use goppstats.Main.Reload.Delivered.{all-delivered, set-fires, append-some}
use goppstats.Main.Reload.Pending.{all_set, all_set-append}
use goppstats.Main.Reload.Proceeds.{is_unasked, Proceeds, here, then_step, Proceeds-trans}

-- The collectors end one after another.
collectors-end :
    (cs : List ℕ) (s : System)
    → (s' : System) × Proceeds s s'
      × (s'.file ≡ s.file)
      × (s'.program ≡ record s.program { collectors = all_without cs s.program.collectors })
      × (s'.clock ≡ s.clock)
unfolding all_without on_act on_collector_end reads is_unasked
collectors-end [] s = (s, here s, refl, refl, refl)
collectors-end (c ∷ more) s =
    let p = on_collector_end c s.program in
    let (s', path, f, q, t) = collectors-end more (on_act p s) in
    (
      s',
      Proceeds-trans (then_step (here s) (acts p s (Run.collector_ends c s.program) refl) refl)
          path,
      f,
      q,
      t,
    )

all-end :
    (s : System)
    → (s' : System) × Proceeds s s'
      × (s'.file ≡ s.file)
      × (s'.program ≡ record s.program { collectors = [] })
      × (s'.clock ≡ s.clock)
all-end s =
    let (s', path, f, q, t) = collectors-end s.program.collectors s in
    let none_left = all_without-none s.program.collectors s.program.collectors (λ x m. m) in
    (s', path, f, q ∙ ap (λ cs. record s.program { collectors = cs }) none_left, t)

-- The next run has begun with this configuration, and the file is read.
abbrev IsInForce : TomlConfig → ℕ → ℕ → System → Type 0
IsInForce conf runs clock s =
    (s.program.conf ≡ conf)
    × (s.program.phase ≡ selects)
    × (s.program.runs ≡ suc runs)
    × (s.is_read ≡ true)
    × (s.clock ≡ clock)

-- Once no collector is left and the context is not cancelled, the file is read, its configuration is
-- logged with, and the next run begins.
drained-IsInForce :
    (setup_logging : LoggingConfig → Setup) (s : System) (conf : TomlConfig) (level : ℤ)
    (handlers : List Handler)
    → s.program.phase ≡ drains_for_reload
    → s.program.collectors ≡ []
    → s.program.is_cancelled ≡ false
    → s.file ≡ ok conf
    → setup_logging conf.logging ≡ logs level handlers
    → (s' : System) × Proceeds s s' × IsInForce conf s.program.runs s.clock s'
unfolding after_drain on_config_read on_logging_set_up begin_run on_act on_read reads is_unasked
drained-IsInForce setup_logging s conf level handlers p e c f l =
    let s₁ = on_act (after_drain s.program) s in
    let p₁ : s₁.program.phase ≡ reads_config = ground (arith, c) in
    let s₂ = on_read s₁ in
    let p₂ : s₂.program.phase ≡ sets_up_logging = ground (arith, f) in
    let q₂ : s₂.program.conf ≡ conf = ground (arith, f) in
    let r₂ : s₂.program.runs ≡ s.program.runs = ground (arith, f, c) in
    let l₂ : setup_logging s₂.program.conf.logging ≡ logs level handlers = rw q₂ l in
    let s₃ = on_act (on_logging_set_up setup_logging s₂.program) s₂ in
    let p₃ : s₃.program.phase ≡ starts_run = ground (arith, l₂) in
    let q₃ : s₃.program.conf ≡ conf = ground (arith, l₂, q₂) in
    let r₃ : s₃.program.runs ≡ s.program.runs = ground (arith, l₂, r₂) in
    (
      on_act (begin_run s₃.program) s₃,
      then_step
          (then_step
            (then_step
              (then_step (here s)
                (acts (after_drain s.program) s (Run.drained_for_reload s.program p e) refl) refl)
              (reads_file s₁ p₁) refl)
            (acts (on_logging_set_up setup_logging s₂.program) s₂
              (Run.logging_set_up setup_logging s₂.program p₂) refl)
            refl)
          (acts (begin_run s₃.program) s₃ (Run.run_begins s₃.program p₃) refl) refl,
      (q₃, refl, ap suc r₃, refl, refl),
    )

-- A request in the channel is taken, and the collectors end.
requested-drained :
    (s : System)
    → s.program.phase ≡ selects
    → s.program.reload ≡ true
    → (s' : System) × Proceeds s s'
      × (s'.file ≡ s.file)
      × (s'.program ≡ record (on_reload s.program) { collectors = [] })
      × (s'.clock ≡ s.clock)
unfolding reads on_act on_reload is_unasked
requested-drained s p r =
    let s₁ = on_act (on_reload s.program) s in
    let (s', path, f, q, t) = all-end s₁ in
    (
      s',
      Proceeds-trans
          (then_step (here s) (acts (on_reload s.program) s (Run.takes_reload s.program p r) refl)
            refl)
          path,
      f,
      q,
      t,
    )

-- While the loop stands at its `select`, the context is not cancelled, the watcher runs, the file is
-- watched and every event of it that is to come sets the timer, a change of the file that gives such
-- an event, to a configuration that can be logged with, can be followed by the next run, with that
-- configuration in force, and the file read, half a second later, without a signal and without another
-- change of the file.
pub on_change-in_force :
    (setup_logging : LoggingConfig → Setup) (conf : TomlConfig) (e : FileEvent) (s : System)
    (level : ℤ) (handlers : List Handler)
    → sets_timer e ≡ true
    → s.is_watched ≡ true
    → all_set s.events ≡ true
    → s.watcher.is_running ≡ true
    → s.program.phase ≡ selects
    → s.program.is_cancelled ≡ false
    → setup_logging conf.logging ≡ logs level handlers
    → (s' : System) × Proceeds (on_change (ok conf) e s) s'
      × (s'.program.conf ≡ conf)
      × (s'.program.phase ≡ selects)
      × (s'.program.runs ≡ suc s.program.runs)
      × (s'.is_read ≡ true)
      × (s'.clock ≡ s.clock + debounce_delay)
unfolding on_change on_reload_request on_reload
on_change-in_force setup_logging conf e s level handlers t w a r p c l =
    let s₁ = on_change (ok conf) e s in
    let es : s₁.events ≡ List.◌++◌ s.events (e ∷ []) = ground (arith, w) in
    let (s₂, path₂, q₂, f₂, r₂, t₂, c₂) =
      all-delivered (List.◌++◌ s.events (e ∷ [])) s₁ es r (all_set-append e s.events a t)
        (inl (append-some s.events e)) in
    let (s₃, path₃, f₃, q₃, c₃) = set-fires s₂ r₂ t₂ in
    let p₃ : s₃.program.phase ≡ selects = ground (arith, q₃, q₂, p) in
    let (s₄, path₄, f₄, q₄, c₄) = requested-drained s₃ p₃ (ground (arith, q₃)) in
    let (s₅, path₅, (in_force, phase, runs, read, c₅)) =
      drained-IsInForce setup_logging s₄ conf level handlers (ap (λ x. x.phase) q₄)
        (ap (λ x. x.collectors) q₄) (ground (arith, q₄, q₃, q₂, c)) (f₄ ∙ f₃ ∙ f₂) l in
    (
      s₅,
      Proceeds-trans path₂ (Proceeds-trans path₃ (Proceeds-trans path₄ path₅)),
      in_force,
      phase,
      runs ∙ ground (arith, q₄, q₃, q₂),
      read,
      ground (arith, c₅, c₄, c₃, c₂),
    )

-- ===== src/Examples/Reload.antt =====
-- A configuration file that is renamed, and one that is written and read again.
use goppstats.Prelude.{[], ◌∷◌, true, false, ◌≡◌, refl}
use goppstats.Prelude.Int.{pos}
use goppstats.Prelude.Result.{Result, ok, err, message}
use goppstats.Config.{TomlConfig}
use goppstats.ConfigWatcher.{debounce_delay, FileEvent, Watcher, start_config_watcher, on_event}
use goppstats.Logging.Setup.{console, logs}
use goppstats.Main.Run.{selects, begin_run, enabled_from}
use goppstats.Main.Reload.{
  System, watcher_of, begin, on_change, on_delivery, changes, delivers, Reaches, here, then_step,
}
use goppstats.Main.Reload.Heeded.{IsHeeded, Reaches-IsHeeded}
use goppstats.Main.Reload.Pending.{all_set}
use goppstats.Main.Reload.Proceeds.{Proceeds}
use goppstats.Main.Reload.InForce.{on_change-in_force}
use goppstats.Examples.Program.{toml}

abbrev write : FileEvent
write = record { write = true; create = false; rename = false; remove = false }

abbrev rename : FileEvent
rename = record { write = false; create = false; rename = true; remove = false }

abbrev started : Result Watcher
started = start_config_watcher (λ s. s) (ok tt) (λ s. ok tt) "goppstats.toml"

abbrev no_file : Result TomlConfig
no_file = err (message "no such file")

-- The file is gone when the watch is to be added again.
abbrev renamed : System
renamed = on_delivery false rename [] (on_change no_file rename (begin toml 0 started))

begin-renamed : Reaches (begin toml 0 started) renamed
unfolding start_config_watcher watcher_of on_change on_delivery on_event
begin-renamed =
    then_step
      (then_step (here (begin toml 0 started)) (changes no_file rename (begin toml 0 started) refl))
      (delivers false rename [] _ refl refl)

Reaches-IsHeeded_example : IsHeeded renamed
Reaches-IsHeeded_example =
    Reaches-IsHeeded (λ s. s) (ok tt) (λ s. ok tt) "goppstats.toml" toml 0 renamed begin-renamed

abbrev changed : TomlConfig
changed = record toml { clusters = [] }

on_change-in_force_example :
    (s : System) × Proceeds (on_change (ok changed) write (begin toml 0 started)) s
    × (s.program.conf ≡ changed)
    × (s.program.phase ≡ selects)
    × (s.program.runs ≡ 2)
    × (s.is_read ≡ true)
    × (s.clock ≡ debounce_delay)
unfolding start_config_watcher watcher_of all_set begin_run enabled_from
on_change-in_force_example =
    on_change-in_force (λ lc. logs (pos 2) (console ∷ [])) changed write (begin toml 0 started)
      (pos 2) (console ∷ []) refl refl refl refl refl refl refl

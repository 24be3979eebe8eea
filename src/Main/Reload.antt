-- ===== src/Main/Reload.antt =====
-- The main program and the watcher of its configuration file together (main.go, config_watcher.go): the
-- file, the events of it that are still to be delivered, and the reload channel that both share.
pub mod Pending
pub mod Heeded
pub mod Proceeds
pub mod Delivered
pub mod InForce
use mathlib.Core.Bool.{not}
use mathlib.Core.List
use goppstats.Prelude.{
  ℕ, ◌+◌, ◌≤◌, List, [], ◌∷◌, Bool, true, false, ◌&&◌, ◌||◌, some, ◌≡◌, if◌then◌else◌,
}
use goppstats.Prelude.Result.{Result, ok, err}
use goppstats.Config.{TomlConfig}
use goppstats.ConfigWatcher
use goppstats.ConfigWatcher.{FileEvent, Watcher, is_replacement, sets_timer, on_event, on_timer}
use goppstats.Main.Run
use goppstats.Main.Run.{Program, reads_config, on_reload_request, on_config_read}

-- What `readConfig` would make of the file now, and whether the program has read it since its last
-- change; whether the host reports its changes, and whether a watch could not be added. The
-- watcher's and the program's `reload` are one channel.
pub record System : Type 0 where
  pub program : Program
  pub watcher : Watcher
  pub clock : ℕ
  pub file : Result TomlConfig
  pub is_read : Bool
  pub events : List FileEvent
  pub is_watched : Bool
  pub is_deaf : Bool

-- The watcher that was started, or one that has ended; and whether there is one.
unfoldable pub watcher_of : Result Watcher → Watcher × Bool
unfolding ConfigWatcher.on_done
watcher_of (ok w) = (w, true)
watcher_of (err e) = (ConfigWatcher.on_done ConfigWatcher.start, false)

-- The program has read the file, and has tried to start the watcher on it: it goes on without one.
abbrev pub begin : TomlConfig → ℕ → Result Watcher → System
begin conf now started = record {
  program = Run.start conf;
  watcher = (watcher_of started).0;
  clock = now;
  file = ok conf;
  is_read = true;
  events = [];
  is_watched = (watcher_of started).1;
  is_deaf = not (watcher_of started).1;
}

-- Whether a step of the program is its reading of the file.
unfoldable pub reads : {p p' : Program} → Run.Step p p' → Bool
reads (Run.sigterm s) = false
reads (Run.reload_request s) = false
reads (Run.collector_ends ci s) = false
reads (Run.takes_reload s p r) = false
reads (Run.takes_done s p e) = false
reads (Run.takes_cancelled s p c) = false
reads (Run.drained_for_reload s p e) = false
reads (Run.config_read new_conf s p) = true
reads (Run.logging_set_up setup_logging s p) = false
reads (Run.run_begins s p) = false
reads (Run.drained_for_end s p e) = false

-- The file changes. A watched file gives an event; a file that is renamed or removed loses its watch.
unfoldable pub on_change : Result TomlConfig → FileEvent → System → System
on_change new e s = record s {
  file = new;
  is_read = false;
  events = if s.is_watched then List.◌++◌ s.events (e ∷ []) else s.events;
  is_watched = s.is_watched && not (is_replacement e);
}

-- The watcher takes an event; `watcher.Add` succeeds or not, and its error is not looked at.
unfoldable pub on_delivery : Bool → FileEvent → List FileEvent → System → System
on_delivery added e rest s = record s {
  watcher = on_event s.clock e s.watcher;
  events = rest;
  is_watched = s.is_watched || (is_replacement e && added);
  is_deaf = s.is_deaf || (is_replacement e && not (s.is_watched || added));
}

-- The watcher's timer sends on the reload channel.
unfoldable pub on_firing : System → System
on_firing s = record s { watcher = on_timer s.watcher; program = on_reload_request s.program }

-- The program takes a step of its own, with what it leaves of the channel.
unfoldable pub on_act : Program → System → System
on_act p s = record s { program = p; watcher = record s.watcher { reload = p.reload } }

-- The program reads the file as it is.
unfoldable pub on_read : System → System
unfolding on_config_read on_act
on_read s = on_act (on_config_read s.file s.program) (record s { is_read = true })

pub data Step : System → System → Type 0 where
  changes :
      (new : Result TomlConfig) (e : FileEvent) (s : System)
      → sets_timer e ≡ true
      → Step s (on_change new e s)
  delivers :
      (added : Bool) (e : FileEvent) (rest : List FileEvent) (s : System)
      → s.watcher.is_running ≡ true
      → s.events ≡ e ∷ rest
      → Step s (on_delivery added e rest s)
  fires :
      (deadline : ℕ) (s : System)
      → s.watcher.is_running ≡ true
      → s.watcher.debounce_timer ≡ some deadline
      → deadline ≤ s.clock
      → Step s (on_firing s)
  passes : (time : ℕ) (s : System) → Step s (record s { clock = s.clock + time })
  stops :
      (s : System)
      → s.program.is_cancelled ≡ true
      → Step s (record s { watcher = ConfigWatcher.on_done s.watcher })
  acts :
      (p : Program) (s : System) (step : Run.Step s.program p)
      → reads step ≡ false
      → Step s (on_act p s)
  reads_file : (s : System) → s.program.phase ≡ reads_config → Step s (on_read s)

pub data Reaches : System → System → Type 0 where
  here : (s : System) → Reaches s s
  then_step : {s s₁ s₂ : System} → Reaches s s₁ → Step s₁ s₂ → Reaches s s₂

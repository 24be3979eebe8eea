-- ===== src/Main/Reload/Heeded.antt =====
-- No change of the configuration file is lost.
use goppstats.Prelude.{
  ℕ, String, List, ◌∷◌, Bool, true, ◌||◌, ◌≡◌, refl, arith, Bool-cases, inl, inr,
}
use goppstats.Prelude.Result.{Result}
use goppstats.Config.{TomlConfig}
use goppstats.ConfigWatcher
use goppstats.ConfigWatcher.{FileEvent, sets_timer, on_event, on_timer, start_config_watcher}
use goppstats.Main.Run.{on_reload_request}
use goppstats.Main.Reload.{
  System, watcher_of, begin, on_change, on_delivery, on_firing, on_act, on_read, Step, changes,
  delivers, fires, passes, stops, acts, reads_file, Reaches, here, then_step,
}
use goppstats.Main.Reload.Pending.{
  is_pending, is_set, is_some, replaces, all_set, all_set-append, replaces-append, is_some-append,
  replaces-is_some, pending-acts, cancelled-acts, cancelled-on_config_read,
}

-- The change is on its way to the program, or cannot be.
abbrev pub is_noticed : System → Bool
is_noticed s =
    is_some s.events || (is_set s.watcher.debounce_timer || (is_pending s.program || s.is_deaf))

-- A change that is not read is noticed; the events to come set the timer; a file that is not watched
-- has been replaced by one of them, unless a watch could not be added; and the watcher runs until the
-- context is cancelled, if a watch could be added at all times.
pub record IsHeeded (s : System) : Type 0 where
  pub noticed : (s.is_read || is_noticed s) ≡ true
  pub setting : all_set s.events ≡ true
  pub heard : (s.is_watched || (s.is_deaf || replaces s.events)) ≡ true
  pub running : (s.watcher.is_running || (s.is_deaf || s.program.is_cancelled)) ≡ true

on_change-IsHeeded :
    (new : Result TomlConfig) (e : FileEvent) (s : System)
    → sets_timer e ≡ true
    → IsHeeded s
    → IsHeeded (on_change new e s)
unfolding on_change
on_change-IsHeeded new e s t h = elim (Bool-cases s.is_watched) [
  | inl q ↦ record {
    noticed = ground (arith, q, is_some-append e s.events);
    setting = ground (arith, q, all_set-append e s.events h.setting t);
    heard = ground (arith, q, replaces-append e s.events);
    running = h.running;
  }
  | inr q ↦ record {
    noticed = ground (arith, q, h.heard, replaces-is_some s.events);
    setting = ground (arith, q, h.setting);
    heard = ground (arith, q, h.heard);
    running = h.running;
  }
]

on_delivery-IsHeeded :
    (added : Bool) (e : FileEvent) (rest : List FileEvent) (s : System)
    → s.events ≡ e ∷ rest
    → IsHeeded s
    → IsHeeded (on_delivery added e rest s)
unfolding on_delivery on_event all_set replaces
on_delivery-IsHeeded added e rest s q h = record {
  noticed = ground (arith, q, h.setting);
  setting = ground (arith, q, h.setting);
  heard = ground (arith, q, h.heard);
  running = ground (arith, h.running);
}

Step-IsHeeded : {s s' : System} → Step s s' → IsHeeded s → IsHeeded s'
unfolding on_firing on_timer on_reload_request on_act on_read ConfigWatcher.on_done
Step-IsHeeded (changes new e s t) h = on_change-IsHeeded new e s t h
Step-IsHeeded (delivers added e rest s r q) h = on_delivery-IsHeeded added e rest s q h
Step-IsHeeded (fires d s r t l) h = record {
  noticed = ground arith;
  setting = h.setting;
  heard = h.heard;
  running = h.running;
}
Step-IsHeeded (passes time s) h = record {
  noticed = h.noticed;
  setting = h.setting;
  heard = h.heard;
  running = h.running;
}
Step-IsHeeded (stops s c) h = record {
  noticed = h.noticed;
  setting = h.setting;
  heard = h.heard;
  running = ground (arith, c);
}
Step-IsHeeded (acts p s step r) h = record {
  noticed = ground (arith, h.noticed, pending-acts step r);
  setting = h.setting;
  heard = h.heard;
  running = ground (arith, h.running, cancelled-acts step r);
}
Step-IsHeeded (reads_file s p) h = record {
  noticed = refl;
  setting = h.setting;
  heard = h.heard;
  running = ground (arith, h.running, cancelled-on_config_read s.file s.program);
}

begin-IsHeeded :
    (quoted : String → String) (new_watcher : Result Unit) (add : String → Result Unit)
    (config_file_name : String) (conf : TomlConfig) (now : ℕ)
    → IsHeeded (begin conf now (start_config_watcher quoted new_watcher add config_file_name))
unfolding all_set start_config_watcher watcher_of ConfigWatcher.on_done
begin-IsHeeded quoted new_watcher add name conf now = record {
  noticed = refl;
  setting = refl;
  heard = ground arith;
  running = ground arith;
}

Reaches-IsHeeded_lem : {s₀ s : System} → Reaches s₀ s → IsHeeded s₀ → IsHeeded s
Reaches-IsHeeded_lem (here s) h = h
Reaches-IsHeeded_lem (then_step r step) h = Step-IsHeeded step (Reaches-IsHeeded_lem r h)

-- However the file changes, the host reports it, signals come, collectors end and time passes: from
-- the start on, with the file as it was read then, a change of the file that the program has not read
-- is on its way to it, as an event, by the timer, or in the reload channel, or the program waits to
-- read the file, or is to end, or a watch could not be added; and the watcher runs until the context
-- is cancelled, unless a watch could not be added.
pub Reaches-IsHeeded :
    (quoted : String → String) (new_watcher : Result Unit) (add : String → Result Unit)
    (config_file_name : String) (conf : TomlConfig) (now : ℕ) (s : System)
    → Reaches (begin conf now (start_config_watcher quoted new_watcher add config_file_name)) s
    → IsHeeded s
Reaches-IsHeeded quoted new_watcher add name conf now s r =
    Reaches-IsHeeded_lem r (begin-IsHeeded quoted new_watcher add name conf now)

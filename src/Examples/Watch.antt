-- ===== src/Examples/Watch.antt =====
-- An editor that writes the configuration file and then renames it.
use goppstats.Prelude.{suc, ◌+◌, ◌≤◌, true, false, some, refl, arith}
use goppstats.ConfigWatcher.{
  FileEvent, History, begin, debounce_delay, on_event, after_event, event, passes, Reaches, here,
  then_step,
}
use goppstats.ConfigWatcher.Debounce.{due-IsDebounced}

abbrev write : FileEvent
write = record { write = true; create = false; rename = false; remove = false }

abbrev rename : FileEvent
rename = record { write = false; create = false; rename = true; remove = false }

-- Two events, a tenth of a second apart, and the delay.
abbrev waited : History
waited = record {
  watcher = record { debounce_timer = some 600000000; reload = false; is_running = true; adds = 1 };
  clock = 600000000;
  last_taken = 100000000;
  events_taken = 2;
  firings = 0;
}

waited-Reaches : Reaches (begin 0) waited
unfolding after_event on_event
waited-Reaches =
    then_step
      (then_step
        (then_step (then_step (here (begin 0)) (event write (begin 0) refl))
          (passes 100000000 (after_event write (begin 0))))
        (event rename _ refl))
      (passes debounce_delay _)

due-IsDebounced_example : (100000000 + debounce_delay ≤ 600000000) × (suc 0 ≤ 2)
due-IsDebounced_example = due-IsDebounced 0 waited 600000000 waited-Reaches refl (omega arith)

-- ===== src/Main/Reload/Proceeds.antt =====
-- How the system goes on by itself.
use goppstats.Prelude.{true, false, Bool, ◌≡◌}
use goppstats.Main.Run
use goppstats.Main.Run.{Program}
use goppstats.Main.Reload.{System, changes, delivers, fires, passes, stops, acts, reads_file, Step}

-- Whether a step is neither a signal nor a change of the file.
unfoldable pub is_quiet : {p p' : Program} → Run.Step p p' → Bool
is_quiet (Run.sigterm s) = false
is_quiet (Run.reload_request s) = false
is_quiet (Run.collector_ends ci s) = true
is_quiet (Run.takes_reload s p r) = true
is_quiet (Run.takes_done s p e) = true
is_quiet (Run.takes_cancelled s p c) = true
is_quiet (Run.drained_for_reload s p e) = true
is_quiet (Run.config_read new_conf s p) = true
is_quiet (Run.logging_set_up setup_logging s p) = true
is_quiet (Run.run_begins s p) = true
is_quiet (Run.drained_for_end s p e) = true

unfoldable pub is_unasked : {s s' : System} → Step s s' → Bool
unfolding is_quiet
is_unasked (changes new e s t) = false
is_unasked (delivers added e rest s r q) = true
is_unasked (fires deadline s r t l) = true
is_unasked (passes time s) = true
is_unasked (stops s c) = true
is_unasked (acts p s step r) = is_quiet step
is_unasked (reads_file s p) = true

-- The system goes on by itself: no signal comes, and the file does not change.
pub data Proceeds : System → System → Type 0 where
  here : (s : System) → Proceeds s s
  then_step :
      {s s₁ s₂ : System}
      → Proceeds s s₁
      → (step : Step s₁ s₂) → is_unasked step ≡ true
      → Proceeds s s₂

pub Proceeds-trans : {s s₁ s₂ : System} → Proceeds s s₁ → Proceeds s₁ s₂ → Proceeds s s₂
Proceeds-trans r (here s) = r
Proceeds-trans r (then_step q step u) = then_step (Proceeds-trans r q) step u

-- ===== src/ConfigWatcher/Debounce.antt =====
-- The debouncing of events that come soon after each other.
use goppstats.Prelude.{ℕ, suc, ◌+◌, ◌≤◌, true, Option, none, some, ◌≡◌, refl, ◌∙◌, arith}
use goppstats.ConfigWatcher.{
  debounce_delay, FileEvent, on_event, on_timer, on_done, History, begin, sets_timer, after_event,
  after_timer, Step, event, fires, passes, taken, done, Reaches, here, then_step,
}

-- One for a timer that is set.
abbrev armed : Option ℕ → ℕ
armed none = 0
armed (some _) = 1

-- A timer that is set runs out the delay after the last event was taken, and each event that sets it
-- accounts for at most one firing, past or to come.
pub record IsDebounced (h : History) : Type 0 where
  pub deadline : (d : ℕ) → h.watcher.debounce_timer ≡ some d → d ≡ h.last_taken + debounce_delay
  pub counted : h.firings + armed h.watcher.debounce_timer ≤ h.events_taken

begin-IsDebounced : (now : ℕ) → IsDebounced (begin now)
begin-IsDebounced now = record { deadline = λ d e. ground (arith, e); counted = omega arith }

Step-IsDebounced : {h h' : History} → Step h h' → IsDebounced h → IsDebounced h'
unfolding after_event after_timer on_event on_timer on_done
Step-IsDebounced (event e h r) i = record {
  deadline = λ d q. ground (arith, q, i.deadline d);
  counted = ground (arith, i.counted);
}
Step-IsDebounced (fires d h r t l) i = record {
  deadline = λ d' q. ground (arith, q);
  counted = ground (arith, i.counted, t);
}
Step-IsDebounced (passes time h) i = record { deadline = i.deadline; counted = i.counted }
Step-IsDebounced (taken h) i = record { deadline = i.deadline; counted = i.counted }
Step-IsDebounced (done h) i = record { deadline = i.deadline; counted = i.counted }

Reaches-IsDebounced : {now : ℕ} {h : History} → Reaches (begin now) h → IsDebounced h
Reaches-IsDebounced (here h) = begin-IsDebounced _
Reaches-IsDebounced (then_step r s) = Step-IsDebounced s (Reaches-IsDebounced r)

-- In every history of the goroutine from the start, when the timer is due it is at least half a second
-- since the goroutine took the last event that sets the timer, and the timer has fired less often than
-- the goroutine has taken such events.
pub due-IsDebounced :
    (now : ℕ) (h : History) (deadline : ℕ)
    → Reaches (begin now) h
    → h.watcher.debounce_timer ≡ some deadline
    → deadline ≤ h.clock
    → (h.last_taken + debounce_delay ≤ h.clock) × (suc h.firings ≤ h.events_taken)
due-IsDebounced now h deadline r t l =
    let i = Reaches-IsDebounced r in
    (ground (arith, i.deadline deadline t, l), ground (arith, i.counted, t))

timer_set :
    (e : FileEvent) (h : History)
    → sets_timer e ≡ true
    → (after_event e h).watcher.debounce_timer ≡ some (h.clock + debounce_delay)
unfolding after_event on_event
timer_set e h s = ground (arith, s)

running_still :
    (e : FileEvent) (h : History) → (after_event e h).watcher.is_running ≡ h.watcher.is_running
unfolding after_event on_event
running_still e h = ground arith

-- A change that a running watcher sees can lead to a reload half a second later, with nothing else in
-- between.
event-Reaches :
    (e : FileEvent) (h : History)
    → h.watcher.is_running ≡ true
    → sets_timer e ≡ true
    → (h' : History) × Reaches h h'
      × (h'.watcher.reload ≡ true)
      × (h'.clock ≡ h.clock + debounce_delay)
unfolding after_event after_timer on_timer
event-Reaches e h r s =
    let h₁ = after_event e h in
    let h₂ : History = record h₁ { clock = h₁.clock + debounce_delay } in
    (
      after_timer h₂,
      then_step (then_step (then_step (here h) (event e h r)) (passes debounce_delay h₁)) (
          fires (h.clock + debounce_delay) h₂ (running_still e h ∙ r) (timer_set e h s)
            (omega arith)),
      refl,
      refl,
    )

-- ===== src/ConfigWatcher.antt =====
-- The configuration watcher's goroutine (config_watcher.go): what it does with an event that it takes,
-- with its timer and with the end of the context, and what the world does meanwhile. How the file changes,
-- and which events of it are still to be taken, is not looked at here.
pub mod Debounce
use Prim.Native.String.{◌++◌}
use goppstats.Prelude.{
  ℕ, String, ◌+◌, ◌*◌, ◌^◌, ◌≤◌, Bool, true, false, ◌||◌, Option, none, some, ◌≡◌, if◌then◌else◌,
  suc,
}
use goppstats.Prelude.Result.{Result, ok, err, wrapped}

-- 500 milliseconds, in nanoseconds
abbrev pub debounce_delay : ℕ
debounce_delay = 500 * 10 ^ 6

-- An event has any of these operations, or others.
pub record FileEvent : Type 0 where
  pub write : Bool
  pub create : Bool
  pub rename : Bool
  pub remove : Bool

-- The deadline of the timer, whether `reload` (a channel of one place) is full, whether the goroutine
-- runs, and how often the watch has been added again.
pub record Watcher : Type 0 where
  pub debounce_timer : Option ℕ
  pub reload : Bool
  pub is_running : Bool
  pub adds : ℕ

abbrev pub start : Watcher
start = record { debounce_timer = none; reload = false; is_running = true; adds = 0 }

-- The watcher of a file, or why there is none. Opening the notification library's watcher, its `Add`, and
-- how `%q` prints a text are parameters.
unfoldable pub start_config_watcher :
    (String → String) → Result Unit → (String → Result Unit) → String → Result Watcher
start_config_watcher quoted new_watcher add config_file_name = elim new_watcher [
  | err e ↦ err (wrapped "failed to create config file watcher" e)
  | ok _ ↦ elim (add config_file_name) [
    | err e ↦ err (wrapped ("failed to watch config file " ++ quoted config_file_name) e)
    | ok _ ↦ ok start
  ]
]

abbrev is_change : FileEvent → Bool
is_change e = e.write || e.create

abbrev pub is_replacement : FileEvent → Bool
is_replacement e = e.rename || e.remove

-- `case event := <-watcher.Events`, at a time
unfoldable pub on_event : ℕ → FileEvent → Watcher → Watcher
on_event now e s =
    let changed : Watcher =
      if is_change e then record s { debounce_timer = some (now + debounce_delay) } else s in
    if is_replacement e
    then record changed { debounce_timer = some (now + debounce_delay); adds = suc changed.adds }
    else changed

-- `case <-debounceTimer`: a full channel is left as it is.
unfoldable pub on_timer : Watcher → Watcher
on_timer s = record s { debounce_timer = none; reload = true }

-- `case <-ctx.Done()`, or a closed channel
unfoldable pub on_done : Watcher → Watcher
on_done s = record s { is_running = false }

-- A history: the watcher, the clock, the time at which the goroutine last took an event that sets the
-- timer, how many such events it has taken, and how often the timer has fired.
pub record History : Type 0 where
  pub watcher : Watcher
  pub clock : ℕ
  pub last_taken : ℕ
  pub events_taken : ℕ
  pub firings : ℕ

abbrev pub begin : ℕ → History
begin now = record { watcher = start; clock = now; last_taken = 0; events_taken = 0; firings = 0 }

-- An event sets the timer.
abbrev pub sets_timer : FileEvent → Bool
sets_timer e = is_change e || is_replacement e

unfoldable pub after_event : FileEvent → History → History
after_event e h = record h {
  watcher = on_event h.clock e h.watcher;
  last_taken = if sets_timer e then h.clock else h.last_taken;
  events_taken = if sets_timer e then suc h.events_taken else h.events_taken;
}

unfoldable pub after_timer : History → History
after_timer h = record h { watcher = on_timer h.watcher; firings = suc h.firings }

-- One step of the goroutine or of the world: `select` takes any case that is ready: an event that
-- is delivered, or the timer, from its deadline on.
pub data Step : History → History → Type 0 where
  event : (e : FileEvent) (h : History) → h.watcher.is_running ≡ true → Step h (after_event e h)
  fires :
      (deadline : ℕ) (h : History)
      → h.watcher.is_running ≡ true
      → h.watcher.debounce_timer ≡ some deadline
      → deadline ≤ h.clock
      → Step h (after_timer h)
  passes : (time : ℕ) (h : History) → Step h (record h { clock = h.clock + time })
  taken : (h : History) → Step h (record h { watcher = record h.watcher { reload = false } })
  done : (h : History) → Step h (record h { watcher = on_done h.watcher })

pub data Reaches : History → History → Type 0 where
  here : (h : History) → Reaches h h
  then_step : {h h₁ h₂ : History} → Reaches h h₁ → Step h₁ h₂ → Reaches h h₂

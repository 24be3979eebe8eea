-- ===== src/Main/Reload/Delivered.antt =====
-- How the events of the configuration file come to the reload channel.
use mathlib.Core.List
use goppstats.Prelude.{◌+◌, List, [], ◌∷◌, true, ◌⊎◌, inl, inr, some, ◌≡◌, refl, arith}
use goppstats.ConfigWatcher.{FileEvent, on_event, debounce_delay}
use goppstats.Main.Run.{on_reload_request}
use goppstats.Main.Reload.{System, on_delivery, on_firing, delivers, fires, passes}
use goppstats.Main.Reload.Pending.{all_set}
use goppstats.Main.Reload.Proceeds.{is_unasked, Proceeds, here, then_step, Proceeds-trans}

-- The timer is to run out the delay after now.
abbrev pub IsDelayed : System → Type 0
IsDelayed s = s.watcher.debounce_timer ≡ some (s.clock + debounce_delay)

-- All events are delivered, and the timer is set then.
pub all-delivered :
    (es : List FileEvent) (s : System)
    → s.events ≡ es
    → s.watcher.is_running ≡ true
    → all_set es ≡ true
    → ((e : FileEvent) × (rest : List FileEvent) × (es ≡ e ∷ rest)) ⊎ IsDelayed s
    → (s' : System) × Proceeds s s'
      × (s'.program ≡ s.program)
      × (s'.file ≡ s.file)
      × (s'.watcher.is_running ≡ true)
      × IsDelayed s'
      × (s'.clock ≡ s.clock)
unfolding all_set on_delivery on_event is_unasked
all-delivered [] s q r a (inl (e, rest, n)) = let no : ⊥ = ground (arith, n) in elim no [ ]
all-delivered [] s q r a (inr t) = (s, here s, refl, refl, r, t, refl)
all-delivered (e ∷ rest) s q r a t =
    let s₁ = on_delivery true e rest s in
    let set : IsDelayed s₁ = ground (arith, a) in
    let (s', path, p, f, r', t', c) =
      all-delivered rest s₁ refl (ground (arith, r)) (ground (arith, a)) (inr set) in
    (
      s',
      Proceeds-trans (then_step (here s) (delivers true e rest s r q) refl) path,
      p,
      f,
      r',
      t',
      c,
    )

-- A timer that is set runs out and sends on the channel.
pub set-fires :
    (s : System)
    → s.watcher.is_running ≡ true
    → IsDelayed s
    → (s' : System) × Proceeds s s'
      × (s'.file ≡ s.file)
      × (s'.program ≡ on_reload_request s.program)
      × (s'.clock ≡ s.clock + debounce_delay)
unfolding on_firing is_unasked
set-fires s r t =
    let s₁ : System = record s { clock = s.clock + debounce_delay } in
    (
      on_firing s₁,
      then_step (then_step (here s) (passes debounce_delay s) refl)
          (fires (s.clock + debounce_delay) s₁ r t (omega arith)) refl,
      refl,
      refl,
      refl,
    )

pub append-some :
    (es : List FileEvent) (e : FileEvent)
    → (x : FileEvent) × (rest : List FileEvent) × (List.◌++◌ es (e ∷ []) ≡ x ∷ rest)
append-some [] e = (e, [], refl)
append-some (x ∷ es) e = (x, _, refl)

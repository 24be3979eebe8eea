-- ===== src/Main/Run/Ends.antt =====
-- How the program comes to its end.
use goppstats.Prelude.{ℕ, ◌+◌, ◌≤◌, List, [], ◌∷◌, In, true, ◌≡◌, refl, arith, inl, inr, ◌⊎◌}
use goppstats.Prelude.Result.{err, message}
use goppstats.Logging.Setup.{exits}
use goppstats.Main.Run.{
  Phase, selects, drains_for_reload, reads_config, sets_up_logging, starts_run, drains_for_end,
  ended, Program, begin_run, on_sigterm, on_reload_request, on_collector_end, on_reload, on_done,
  on_cancelled, after_drain, on_config_read, on_logging_set_up, Step, sigterm, reload_request,
  collector_ends, takes_reload, takes_done, takes_cancelled, drained_for_reload, config_read,
  logging_set_up, run_begins, drained_for_end, Reaches, here, then_step,
}

-- The most steps that the loop takes from here if the context is cancelled.
abbrev pub steps_left : Phase → ℕ
steps_left selects = 2
steps_left drains_for_reload = 1
steps_left reads_config = 5
steps_left sets_up_logging = 4
steps_left starts_run = 3
steps_left drains_for_end = 1
steps_left (ended status) = 0

-- Whether a step is the loop's own: one, or none.
unfoldable pub own : {s s' : Program} → Step s s' → ℕ
own (sigterm s) = 0
own (reload_request s) = 0
own (collector_ends ci s) = 0
own (takes_reload s p r) = 1
own (takes_done s p e) = 1
own (takes_cancelled s p c) = 1
own (drained_for_reload s p e) = 1
own (config_read new_conf s p) = 1
own (logging_set_up setup_logging s p) = 1
own (run_begins s p) = 1
own (drained_for_end s p e) = 1

unfoldable pub own_steps : {s s' : Program} → Reaches s s' → ℕ
unfolding own
own_steps (here s) = 0
own_steps (then_step r step) = own_steps r + own step

-- The context and the run's own are cancelled.
abbrev IsCancelled : Program → Type 0
IsCancelled s = (s.is_cancelled ≡ true) × (s.is_run_cancelled ≡ true)

Step-left :
    {s s' : Program} (step : Step s s')
    → IsCancelled s
    → IsCancelled s' × (own step + steps_left s'.phase ≤ steps_left s.phase)
unfolding own on_sigterm on_reload_request on_collector_end on_reload on_done on_cancelled
    after_drain on_config_read on_logging_set_up begin_run
Step-left (sigterm s) (c, d) = ((refl, refl), omega arith)
Step-left (reload_request s) (c, d) = ((c, d), omega arith)
Step-left (collector_ends ci s) (c, d) = ((c, d), omega arith)
Step-left (takes_reload s p r) (c, d) = ((c, refl), ground (arith, p))
Step-left (takes_done s p e) (c, d) = ((c, refl), ground (arith, p))
Step-left (takes_cancelled s p q) (c, d) = ((c, refl), ground (arith, p))
Step-left (drained_for_reload s p e) (c, d) =
    ((ground (arith, c), ground (arith, d)), ground (arith, p, c))
Step-left (config_read new_conf s p) (c, d) =
    ((ground (arith, c), ground (arith, d)), ground (arith, p))
Step-left (logging_set_up setup_logging s p) (c, d) =
    ((ground (arith, c), ground (arith, d)), ground (arith, p))
Step-left (run_begins s p) (c, d) = ((c, c), ground (arith, p))
Step-left (drained_for_end s p e) (c, d) = ((c, d), ground (arith, p))

Reaches-left :
    {s s' : Program} (r : Reaches s s')
    → IsCancelled s
    → IsCancelled s' × (own_steps r + steps_left s'.phase ≤ steps_left s.phase)
unfolding own_steps
Reaches-left (here s) c = (c, omega arith)
Reaches-left (then_step r step) c =
    let (c₁, l₁) = Reaches-left r c in let (c₂, l₂) = Step-left step c₁ in (c₂, omega arith)

-- A step of the loop's own is open.
abbrev pub CanGoOn : Program → Type 0
CanGoOn s = (s' : Program) × (step : Step s s') × (own step ≡ 1)

some-left : (cs : List ℕ) → (cs ≡ []) ⊎ ((ci : ℕ) × In ci cs)
some-left [] = inl refl
some-left (c ∷ cs) = inr (c, inl refl)

-- With no collector left and a cancelled context the loop has ended, or can go on.
goes-on :
    (s : Program) (p : Phase)
    → s.phase ≡ p
    → s.is_cancelled ≡ true
    → s.collectors ≡ []
    → ((n : ℕ) × (s.phase ≡ ended n)) ⊎ CanGoOn s
unfolding own
goes-on s selects p c e = inr (_, takes_cancelled s p c, refl)
goes-on s drains_for_reload p c e = inr (_, drained_for_reload s p e, refl)
goes-on s reads_config p c e = inr (_, config_read (err (message "")) s p, refl)
goes-on s sets_up_logging p c e = inr (_, logging_set_up (λ lc. exits 0) s p, refl)
goes-on s starts_run p c e = inr (_, run_begins s p, refl)
goes-on s drains_for_end p c e = inr (_, drained_for_end s p e, refl)
goes-on s (ended n) p c e = inl (n, p)

pub on_sigterm-ends :
    (s s' : Program) (r : Reaches (on_sigterm s) s')
    → (s'.is_run_cancelled ≡ true)
      × (own_steps r + steps_left s'.phase ≤ steps_left s.phase)
      × (((ci : ℕ) × In ci s'.collectors) ⊎ (((n : ℕ) × (s'.phase ≡ ended n)) ⊎ CanGoOn s'))
unfolding on_sigterm
on_sigterm-ends s s' r =
    let ((c, d), l) = Reaches-left r (refl, refl) in
    (
      d,
      l,
      elim (some-left s'.collectors) [
        | inl e ↦ inr (goes-on s' s'.phase refl c e)
        | inr some_one ↦ inl some_one
      ],
    )

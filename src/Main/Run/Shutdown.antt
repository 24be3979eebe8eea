-- ===== src/Main/Run/Shutdown.antt =====
-- What is left of the program after a signal to end.
use goppstats.Prelude.{ℕ, ◌+◌, ◌≤◌, true, ◌≡◌, refl, ◌∙◌, arith, ◌⊎◌, inl, inr}
use goppstats.Main.Run.{
  Phase, selects, drains_for_reload, reads_config, sets_up_logging, starts_run, drains_for_end,
  ended, Program, begin_run, on_sigterm, on_reload_request, on_collector_end, on_reload, on_done,
  on_cancelled, after_drain, on_config_read, on_logging_set_up, Step, sigterm, reload_request,
  collector_ends, takes_reload, takes_done, takes_cancelled, drained_for_reload, config_read,
  logging_set_up, run_begins, drained_for_end, Reaches, here, then_step,
}

-- How many runs the loop begins before it looks at the context again.
abbrev under_way : Phase → ℕ
under_way selects = 0
under_way drains_for_reload = 0
under_way reads_config = 1
under_way sets_up_logging = 1
under_way starts_run = 1
under_way drains_for_end = 0
under_way (ended status) = 0

-- Another state of the program is cancelled still, and has begun no run but one that was under way; one
-- was, or none is and the configuration is the same.
abbrev pub IsShutdownOf : Program → Program → Type 0
IsShutdownOf s s' =
    (s'.is_cancelled ≡ true)
    × (s'.runs + under_way s'.phase ≤ s.runs + under_way s.phase)
    × (s.runs ≤ s'.runs)
    × ((under_way s.phase ≡ 1) ⊎ ((under_way s'.phase ≡ 0) × (s'.conf ≡ s.conf)))

abbrev IsCancelledFrom : Program → Program → Type 0
IsCancelledFrom s s' =
    (s'.is_cancelled ≡ true)
    × (s'.runs + under_way s'.phase ≤ s.runs + under_way s.phase)
    × (s.runs ≤ s'.runs)
    × (under_way s.phase ≡ 0 → (under_way s'.phase ≡ 0) × (s'.conf ≡ s.conf))

Step-IsCancelledFrom : {s s' : Program} → Step s s' → s.is_cancelled ≡ true → IsCancelledFrom s s'
unfolding on_sigterm on_reload_request on_collector_end on_reload on_done on_cancelled after_drain
    on_config_read on_logging_set_up begin_run
Step-IsCancelledFrom (sigterm s) c = (refl, omega arith, omega arith, λ u. (u, refl))
Step-IsCancelledFrom (reload_request s) c = (c, omega arith, omega arith, λ u. (u, refl))
Step-IsCancelledFrom (collector_ends ci s) c = (c, omega arith, omega arith, λ u. (u, refl))
Step-IsCancelledFrom (takes_reload s p r) c = (c, ground arith, omega arith, λ u. (refl, refl))
Step-IsCancelledFrom (takes_done s p e) c = (c, ground arith, omega arith, λ u. (refl, refl))
Step-IsCancelledFrom (takes_cancelled s p q) c = (c, ground arith, omega arith, λ u. (refl, refl))
Step-IsCancelledFrom (drained_for_reload s p e) c = (
  ground (arith, c),
  ground (arith, c),
  ground (arith, c),
  λ u. (ground (arith, c), ground arith),
)
Step-IsCancelledFrom (config_read new_conf s p) c =
    (ground (arith, c), ground (arith, p), ground arith, λ u. ground (arith, p, u))
Step-IsCancelledFrom (logging_set_up setup_logging s p) c =
    (ground (arith, c), ground (arith, p), ground arith, λ u. ground (arith, p, u))
Step-IsCancelledFrom (run_begins s p) c =
    (c, ground (arith, p), omega arith, λ u. ground (arith, p, u))
Step-IsCancelledFrom (drained_for_end s p e) c = (c, ground arith, omega arith, λ u. (refl, refl))

Reaches-IsCancelledFrom :
    {s s' : Program} → Reaches s s' → s.is_cancelled ≡ true → IsCancelledFrom s s'
Reaches-IsCancelledFrom (here s) c = (c, omega arith, omega arith, λ u. (u, refl))
Reaches-IsCancelledFrom (then_step r step) c =
    let (c₁, n₁, l₁, q₁) = Reaches-IsCancelledFrom r c in
    let (c₂, n₂, l₂, q₂) = Step-IsCancelledFrom step c₁ in
    (
      c₂,
      omega arith,
      omega arith,
      λ u. let (u₁, e₁) = q₁ u in let (u₂, e₂) = q₂ u₁ in (u₂, e₂ ∙ e₁),
    )

under_way-cases : (p : Phase) → (under_way p ≡ 1) ⊎ (under_way p ≡ 0)
under_way-cases selects = inr refl
under_way-cases drains_for_reload = inr refl
under_way-cases reads_config = inl refl
under_way-cases sets_up_logging = inl refl
under_way-cases starts_run = inl refl
under_way-cases drains_for_end = inr refl
under_way-cases (ended n) = inr refl

-- Once the context is cancelled at most one more run begins, whatever steps are taken, and that only if
-- the loop has looked at the context after a reload and not begun the run yet; else no configuration
-- takes the place of the one in force either.
pub Reaches-IsShutdownOf :
    {s s' : Program} → Reaches s s' → s.is_cancelled ≡ true → IsShutdownOf s s'
Reaches-IsShutdownOf {s = s} r c =
    let (c', n, l, q) = Reaches-IsCancelledFrom r c in
    (c', n, l, elim (under_way-cases s.phase) [ inl u ↦ inl u | inr u ↦ inr (q u) ])

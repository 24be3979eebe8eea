-- ===== src/Main/Loop/Clocked.antt =====
-- The loop while a clock runs, and once its context is cancelled.
use goppstats.Prelude.{
  ℕ, zero, suc, ◌+◌, ◌*◌, ◌≤◌, ◌<◌, String, List, Bool, true, false, Option, none, some, ◌≡◌, ◌⊎◌,
  arith, inl, inr, Bool-cases, Option-cases, ltb, if◌then◌else◌,
}
use goppstats.Prelude.Int.{ℤ, pos, ◌+ℤ◌, ◌≤ℤ◌, +ℤ_parts}
use goppstats.Prelude.Result.{err, Error, is_canceled, Result-cases}
use goppstats.Api.Types.{DsInfo, DsInfoEntry, PpStatResult}
use goppstats.Main.{second, Collector}
use goppstats.Main.Duration.{longer}
use goppstats.Main.Duration.Bounds.{longer-pos}
use goppstats.Main.Loop.{Outcome, went_on, stopped, out_of_fuel, read_stats, write_stats}

-- A retry time of at least a second, that stays so when it is prolonged.
abbrev pub IsLong : ℤ → Type 0
IsLong t = (m : ℕ) × (t ≡ pos m) × (second ≤ m) × (m ≤ 9223372036 * second)

-- The clock does not go back, a wait that passes takes its time, and after a time the queries of the
-- cluster fail, and a
-- failed query of statistics is canceled, or the wait after it is.
pub record IsCancelledAt {Float64 V : Type 0} (io : Collector Float64 V) (clock : V → ℕ)
    (deadline : ℕ) : Type 0 where
  pub now : (v : V) → io.now v ≡ pos (clock v)
  pub after_info : (v : V) → clock v ≤ clock (io.get_data_set_info v).1
  pub after_read : (name : String) (v : V) → clock v ≤ clock (io.get_pp_stats name v).1
  pub after_update : (di : DsInfo) (v : V) → clock v ≤ clock (io.update_datasets di v)
  pub after_write :
      (ds : DsInfoEntry) (sr : List (PpStatResult Float64)) (v : V)
      → clock v ≤ clock (io.write_pp_stats ds sr v).1
  pub after_wait : (d : ℤ) (v : V) → clock v ≤ clock (io.wait d v).1
  pub timed : (d : ℤ) (v : V) → (io.wait d v).0 ≡ true → (io.now v +ℤ d) ≤ℤ io.now (io.wait d v).1
  pub no_info : (v : V) → deadline < clock v → (e : Error) × ((io.get_data_set_info v).0 ≡ err e)
  pub no_read :
      (name : String) (t : ℤ) (v : V)
      → deadline < clock v
      → IsLong t
      → (e : Error) × ((io.get_pp_stats name v).0 ≡ err e)
        × ((is_canceled e ≡ true) ⊎ ((io.wait t (io.get_pp_stats name v).1).0 ≡ false))

abbrev pub ran_out : {A : Type 0} → Outcome A → Bool
ran_out (went_on a t) = false
ran_out stopped = false
ran_out out_of_fuel = true

pub longer-IsLong : (t : ℤ) → IsLong t → IsLong (longer t)
longer-IsLong t (m, e, l, h) =
    let next = if ltb m (1280 * second) then m + m else m in
    (next, ground (arith, e, longer-pos m), ground arith, ground arith)

module _ {Float64 V : Type 0} (io : Collector Float64 V) (clock : V → ℕ) (deadline : ℕ)
    (laws : IsCancelledAt io clock deadline) where
  wait-clock :
      (t : ℤ) (m : ℕ) (v : V)
      → t ≡ pos m
      → (io.wait t v).0 ≡ true
      → clock v + m ≤ clock (io.wait t v).1
  wait-clock t m v e p =
      ground
        (arith, e, laws.timed t v p, laws.now v, laws.now (io.wait t v).1, +ℤ_parts (io.now v) t)

  -- The reads of a dataset end: as many rounds as seconds are left, and one, are enough.
  pub read_stats-ends :
      (fuel : ℕ) (name : String) (t : ℤ) (v : V)
      → IsLong t
      → deadline < clock v + fuel * second
      → (ran_out (read_stats io (suc fuel) name t v).0 ≡ false)
        × (clock v ≤ clock (read_stats io (suc fuel) name t v).1)
  unfolding read_stats
  read_stats-ends zero name t v long b =
      let (x, q, h) = laws.no_read name t v (omega arith) long in
      let after = laws.after_read name v in
      let later = laws.after_wait t (io.get_pp_stats name v).1 in
      elim (Bool-cases (is_canceled x)) [
        | inl c ↦ (ground (arith, q, c), ground (arith, q, c, after))
        | inr c ↦ elim h [
          | inl d ↦ let no : ⊥ = ground (arith, c, d) in elim no [ ]
          | inr p ↦ (ground (arith, q, c, p), ground (arith, q, c, p, after, later))
        ]
      ]
  read_stats-ends (suc k) name t v (m, e, l, h) b =
      let (r, v₁) = io.get_pp_stats name v in
      let after = laws.after_read name v in
      elim (Result-cases r) [
        | inl (sr, q) ↦ (ground (arith, q), ground (arith, q, after))
        | inr (x, q) ↦ elim (Bool-cases (is_canceled x)) [
          | inl c ↦ (ground (arith, q, c), ground (arith, q, c, after))
          | inr c ↦
              let later = laws.after_wait t v₁ in
              elim (Bool-cases (io.wait t v₁).0) [
                | inr p ↦ (ground (arith, q, c, p), ground (arith, q, c, p, after, later))
                | inl p ↦
                    let took = wait-clock t m v₁ e p in
                    let (o, more) =
                      read_stats-ends k name (longer t) (io.wait t v₁).1
                        (longer-IsLong t (m, e, l, h)) (omega arith) in
                    (ground (arith, q, c, p, o), ground (arith, q, c, p, more, after, later))
              ]
        ]
      ]

  -- What the writes of a dataset leave: a retry time that is long, if they go on.
  abbrev pub IsLongAfter : Outcome Unit → Type 0
  IsLongAfter (went_on _ t) = IsLong t
  IsLongAfter stopped = Unit
  IsLongAfter out_of_fuel = ⊥

  pub write_stats-ends :
      (n : ℕ) (ds : DsInfoEntry) (sr : List (PpStatResult Float64)) (t : ℤ) (last : Option Error)
      (v : V)
      → IsLong t
      → IsLongAfter (write_stats io n ds sr t last v).0
        × (clock v ≤ clock (write_stats io n ds sr t last v).1)
  unfolding write_stats
  write_stats-ends zero ds sr t none v long = (long, omega arith)
  write_stats-ends zero ds sr t (some e) v long = (tt, omega arith)
  write_stats-ends (suc n) ds sr t last v long =
      let (r, v₁) = io.write_pp_stats ds sr v in
      let after = laws.after_write ds sr v in
      elim (Option-cases r) [
        | inl q ↦ rw (q, write_stats) (long, after)
        | inr (x, q) ↦ elim (Bool-cases (is_canceled x)) [
          | inl c ↦ rw (q, write_stats) (rw (c, write_stats) (tt, after))
          | inr c ↦
              let later = laws.after_wait t v₁ in
              elim (Bool-cases (io.wait t v₁).0) [
                | inr p ↦
                    rw (q, write_stats)
                      (rw (c, write_stats) (rw (p, write_stats) (tt, omega arith)))
                | inl p ↦
                    let (o, more) =
                      write_stats-ends n ds sr (longer t) (some x) (io.wait t v₁).1
                        (longer-IsLong t long) in
                    rw (q, write_stats) (rw (c, write_stats) (rw (p, write_stats) (o, omega arith)))
              ]
        ]
      ]

-- ===== src/Main/Loop/Retries.antt =====
-- The retries of the reads and of the writes.
use goppstats.Prelude.{
  ℕ, zero, suc, ◌<◌, ◌≤◌, String, List, true, false, Option, none, some, ◌≡◌, refl, arith, inl, inr,
  Bool-cases, Option-cases,
}
use goppstats.Prelude.Int.{ℤ}
use goppstats.Prelude.Result.{ok, err, Error, is_canceled}
use goppstats.Api.Types.{DsInfoEntry, PpStatResult}
use goppstats.Main.{Collector}
use goppstats.Main.Duration.{longer}
use goppstats.Main.Duration.Bounds.{prolonged}
use goppstats.Main.Loop.{went_on, stopped, read_stats, write_stats}

module _ {Float64 V : Type 0} (io : Collector Float64 V) where
  -- After an attempt to read and the wait that follows it.
  abbrev pub after_read : String → ℤ → V → V
  after_read name t v = (io.wait t (io.get_pp_stats name v).1).1

  -- So many attempts to read fail, none of them as canceled, and every wait passes.
  unfoldable pub AreRefused : ℕ → String → ℤ → V → Type 0
  AreRefused zero name t v = Unit
  AreRefused (suc k) name t v =
      (e : Error) × ((io.get_pp_stats name v).0 ≡ err e)
      × (is_canceled e ≡ false)
      × ((io.wait t (io.get_pp_stats name v).1).0 ≡ true)
      × AreRefused k name (longer t) (after_read name t v)

  unfoldable pub after_reads : ℕ → String → ℤ → V → V
  after_reads zero name t v = v
  after_reads (suc k) name t v = after_reads k name (longer t) (after_read name t v)

  -- If so many reads fail, none of them as canceled, every wait passes and the next read succeeds,
  -- then any greater number of rounds is enough, the results are those of that read, and the retry
  -- time has been prolonged once for each failure.
  pub read_stats-found :
      (k fuel : ℕ) (name : String) (t : ℤ) (v : V) (sr : List (PpStatResult Float64))
      → k < fuel
      → AreRefused k name t v
      → (io.get_pp_stats name (after_reads k name t v)).0 ≡ ok sr
      → read_stats io fuel name t v
        ≡ (went_on sr (prolonged k t), (io.get_pp_stats name (after_reads k name t v)).1)
  unfolding read_stats AreRefused after_reads prolonged
  read_stats-found k zero name t v sr l h e = let no : ⊥ = omega arith in elim no [ ]
  read_stats-found zero (suc fuel) name t v sr l h e = ground (arith, e)
  read_stats-found (suc k) (suc fuel) name t v sr l (x, r, c, p, h) e = ground (
    arith,
    r,
    c,
    p,
    read_stats-found k fuel name (longer t) (after_read name t v) sr (omega arith) h e,
  )

  -- Writes that go on leave the interval, prolonged at most once for each round.
  pub write_stats-prolonged :
      (n : ℕ) (ds : DsInfoEntry) (sr : List (PpStatResult Float64)) (t t' : ℤ) (last : Option Error)
      (v : V)
      → (write_stats io n ds sr t last v).0 ≡ went_on tt t'
      → (k : ℕ) × (k ≤ n) × (t' ≡ prolonged k t)
  unfolding write_stats prolonged
  write_stats-prolonged zero ds sr t t' none v e = (0, omega arith, ground (arith, e))
  write_stats-prolonged zero ds sr t t' (some x) v e = let no : ⊥ = ground (arith, e) in elim no [ ]
  write_stats-prolonged (suc n) ds sr t t' last v e =
      elim (Option-cases (io.write_pp_stats ds sr v).0) [
        | inl q ↦ (0, omega arith, ground (arith, q, e))
        | inr (x, q) ↦
            let v₁ = (io.write_pp_stats ds sr v).1 in
            elim (Bool-cases (is_canceled x)) [
              | inl c ↦ let no : ⊥ = ground (arith, q, c, e) in elim no [ ]
              | inr c ↦ elim (Bool-cases (io.wait t v₁).0) [
                | inr p ↦ let no : ⊥ = ground (arith, q, c, p, e) in elim no [ ]
                | inl p ↦
                    let (k, l, h) =
                      write_stats-prolonged n ds sr (longer t) t' (some x) (io.wait t v₁).1
                        (ground (arith, q, c, p, e)) in
                    (suc k, omega arith, h)
              ]
            ]
      ]

  -- After an attempt to write and the wait that follows it.
  abbrev after_write : DsInfoEntry → List (PpStatResult Float64) → ℤ → V → V
  after_write ds sr t v = (io.wait t (io.write_pp_stats ds sr v).1).1

  -- So many attempts to write fail, none of them as canceled, and every wait passes.
  unfoldable pub AreRejected : ℕ → DsInfoEntry → List (PpStatResult Float64) → ℤ → V → Type 0
  AreRejected zero ds sr t v = Unit
  AreRejected (suc k) ds sr t v =
      (e : Error) × ((io.write_pp_stats ds sr v).0 ≡ some e)
      × (is_canceled e ≡ false)
      × ((io.wait t (io.write_pp_stats ds sr v).1).0 ≡ true)
      × AreRejected k ds sr (longer t) (after_write ds sr t v)

  unfoldable pub after_writes : ℕ → DsInfoEntry → List (PpStatResult Float64) → ℤ → V → V
  after_writes zero ds sr t v = v
  after_writes (suc k) ds sr t v = after_writes k ds sr (longer t) (after_write ds sr t v)

  write_stats-after_error :
      (n : ℕ) (ds : DsInfoEntry) (sr : List (PpStatResult Float64)) (t : ℤ) (last : Error) (v : V)
      → AreRejected n ds sr t v
      → write_stats io n ds sr t (some last) v ≡ (stopped, after_writes n ds sr t v)
  unfolding write_stats AreRejected after_writes
  write_stats-after_error zero ds sr t last v h = refl
  write_stats-after_error (suc n) ds sr t last v (x, r, c, p, h) =
      ground
        (arith, r, c, p, write_stats-after_error n ds sr (longer t) x (after_write ds sr t v) h)

  -- If every one of the configured attempts to write fails, at least one, none of them as canceled,
  -- and every wait passes, the collection of the cluster's statistics stops after as many attempts.
  pub write_stats-stopped :
      (n : ℕ) (ds : DsInfoEntry) (sr : List (PpStatResult Float64)) (t : ℤ) (v : V)
      → AreRejected (suc n) ds sr t v
      → write_stats io (suc n) ds sr t none v ≡ (stopped, after_writes (suc n) ds sr t v)
  unfolding write_stats AreRejected after_writes
  write_stats-stopped n ds sr t v (x, r, c, p, h) =
      ground
        (arith, r, c, p, write_stats-after_error n ds sr (longer t) x (after_write ds sr t v) h)

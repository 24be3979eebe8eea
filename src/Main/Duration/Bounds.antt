-- ===== src/Main/Duration/Bounds.antt =====
-- The bounds within which a retry time does not wrap around.
use goppstats.Prelude.{
  ℕ, zero, suc, ◌+◌, ◌*◌, ◌^◌, ◌≤◌, ◌<◌, ◌≡◌, refl, ◌∙◌, ap, arith, ◌⊎◌, inl, inr, Bool-cases, ltb,
  if◌then◌else◌,
}
use goppstats.Prelude.Int.{ℤ, pos, ◌+ℤ◌}
use goppstats.Main.{second}
use goppstats.Main.Duration.{int64, longer, retry_interval}

-- The retry time after so many retries.
unfoldable pub prolonged : ℕ → ℤ → ℤ
prolonged zero t = t
prolonged (suc k) t = prolonged k (longer t)

int64-small : (n : ℕ) → n < 2 ^ 63 → int64 (pos n) ≡ pos n
unfolding int64
int64-small n l = ground arith

pub longer-pos : (t : ℕ) → longer (pos t) ≡ (if ltb t (1280 * second) then pos (t + t) else pos t)
unfolding longer ◌+ℤ◌
longer-pos t = elim (Bool-cases (ltb t (1280 * second))) [
  | inl b ↦ ground (arith, b, int64-small (t + t))
  | inr b ↦ ground (arith, b)
]

prolonged-pos :
    (k t : ℕ) → (m : ℕ) × (prolonged k (pos t) ≡ pos m) × (t ≤ m) × ((m ≡ t) ⊎ (m < 2560 * second))
unfolding prolonged
prolonged-pos zero t = (t, refl, omega arith, inl refl)
prolonged-pos (suc k) t = elim (Bool-cases (ltb t (1280 * second))) [
  | inl b ↦
      let (m, e, l, h) = prolonged-pos k (t + t) in
      let doubled : longer (pos t) ≡ pos (t + t) = ground (arith, longer-pos t, b) in
      (m, ap (prolonged k) doubled ∙ e, omega arith, inr (ground (arith, b, h)))
  | inr b ↦
      let (m, e, l, h) = prolonged-pos k t in
      let same : longer (pos t) ≡ pos t = ground (arith, longer-pos t, b) in
      (m, ap (prolonged k) same ∙ e, l, h)
]

-- An interval of no more than 9223372036 seconds that is not negative is the time that is waited first,
-- and no number of retries makes that time wrap around, shrink, or pass 2560 seconds unless the interval
-- itself does.
pub retry_interval-prolonged :
    (i k : ℕ)
    → i ≤ 9223372036
    → (retry_interval (pos i) ≡ pos (second * i))
      × ((m : ℕ) × (prolonged k (retry_interval (pos i)) ≡ pos m)
          × (second * i ≤ m)
          × ((m ≡ second * i) ⊎ (m < 2560 * second)))
unfolding retry_interval
retry_interval-prolonged i k l =
    let exact : retry_interval (pos i) ≡ pos (second * i) =
      int64-small (second * i) (omega arith) in
    let (m, e, n, h) = prolonged-pos k (second * i) in
    (exact, (m, ap (prolonged k) exact ∙ e, n, h))

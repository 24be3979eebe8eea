-- ===== src/Api/Client/Session/Retry.antt =====
-- The waits between retries.
use goppstats.Prelude.{ℕ, zero, suc, ◌^◌, ◌≡◌, refl, arith}
use Prim.Native.Nat.{min}
use native.Mathlib.Nat.{pow-suc}
use goppstats.Api.Client.{max_timeout_secs}
use goppstats.Api.Client.Session.{next_retry}

-- The wait before the retry of a number, from 0.
unfoldable pub backoff : ℕ → ℕ
backoff zero = 1
backoff (suc k) = next_retry (backoff k)

-- The wait doubles from one second until it stays at the limit.
pub backoff_lem : (k : ℕ) → backoff k ≡ min (2 ^ k) max_timeout_secs
unfolding backoff next_retry
backoff_lem zero = refl
backoff_lem (suc k) = ground (arith, backoff_lem k, pow-suc 2 k)

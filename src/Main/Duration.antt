-- ===== src/Main/Duration.antt =====
-- `time.Duration`: nanoseconds as an integer of 64 bits, and the retry times that are computed with it.
pub mod Bounds
use goppstats.Prelude.{ℕ, ◌+◌, ◌-◌, ◌*◌, ◌%◌, ◌^◌, ltb, if◌then◌else◌}
use goppstats.Prelude.Int.{ℤ, pos, negsuc, ◌+ℤ◌, ltb_ℤ}
use goppstats.Main.{second}

-- What is left of an integer modulo 2 ^ 64, and the integer of 64 bits that it stands for.
abbrev pub residue : ℤ → ℕ
residue (pos n) = n % 2 ^ 64
residue (negsuc n) = 2 ^ 64 - 1 - n % 2 ^ 64

abbrev pub signed : ℕ → ℤ
signed r = if ltb r (2 ^ 63) then pos r else negsuc (2 ^ 64 - 1 - r)

unfoldable pub int64 : ℤ → ℤ
int64 z = signed (residue z)

abbrev pub seconds : ℤ → ℤ
seconds (pos n) = pos (second * n)
seconds (negsuc n) = negsuc (second * n + (second - 1))

abbrev pub max_retry_time : ℤ
max_retry_time = pos (1280 * second)

-- `time.Second * time.Duration(gc.ProcessorRetryIntvl)`
unfoldable pub retry_interval : ℤ → ℤ
unfolding int64
retry_interval n = int64 (seconds n)

-- `if retryTime < maxRetryTime { retryTime *= 2 }`
unfoldable pub longer : ℤ → ℤ
unfolding int64
longer t = if ltb_ℤ t max_retry_time then int64 (t +ℤ t) else t

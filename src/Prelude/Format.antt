-- ===== src/Prelude/Format.antt =====
-- `strconv.Itoa` and the `%d` of `fmt.Sprintf`: decimal text of a Go `int`.
use Prim.Native.Nat.{ℕ, zero, suc, ◌+◌, ◌/◌, ◌%◌}
use Prim.Native.String.{String, ◌++◌}
use goppstats.Prelude.Tests.{ltb}
use goppstats.Prelude.Int.{ℤ, pos, negsuc}
use mathlib.Core.Bool.{true, false}

digit : ℕ → String
digit zero = "0"
digit (suc zero) = "1"
digit (suc (suc zero)) = "2"
digit (suc (suc (suc zero))) = "3"
digit (suc (suc (suc (suc zero)))) = "4"
digit (suc (suc (suc (suc (suc zero))))) = "5"
digit (suc (suc (suc (suc (suc (suc zero)))))) = "6"
digit (suc (suc (suc (suc (suc (suc (suc zero))))))) = "7"
digit (suc (suc (suc (suc (suc (suc (suc (suc zero)))))))) = "8"
digit _ = "9"

-- The digits of `n` in front of `tail`; the fuel `n + 1` is more than the number of digits.
digits : ℕ → ℕ → String → String
digits zero n tail = tail
digits (suc f) n tail = elim (ltb n 10) [
  | true ↦ digit n ++ tail
  | false ↦ digits f (n / 10) (digit (n % 10) ++ tail)
]

unfoldable pub nat_text : ℕ → String
unfolding digits digit
nat_text n = digits (n + 1) n ""

unfoldable pub itoa : ℤ → String
unfolding nat_text
itoa (pos n) = nat_text n
itoa (negsuc n) = "-" ++ nat_text (n + 1)

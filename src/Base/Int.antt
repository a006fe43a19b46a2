-- ===== src/Base/Int.antt =====
-- Go's `int64`, as integers over the native numbers, with the wrap-around of its operations.
pub mod Laws
use Prim.Native.Nat.{ℕ, suc, ◌+◌, ◌-◌, ◌*◌, ◌/◌, ◌%◌, ◌^◌}
use mathlib.Core.Bool.{Bool, true, false}
use Prim.Native.String.{String, ◌++◌}
use pfsense_agent.Base.Tests.{ltb, if◌then◌else◌}
use pfsense_agent.Base.Text.{decimal}

-- `negsuc n` is -(n + 1).
pub data ℤ : Type 0 where
  pos : ℕ → ℤ
  negsuc : ℕ → ℤ

-- The 64-bit pattern of an integer, and the integer that a pattern stands for.
unfoldable pub bits64 : ℤ → ℕ
bits64 (pos n) = n % 2 ^ 64
bits64 (negsuc n) = 2 ^ 64 - 1 - n % 2 ^ 64

unfoldable pub of_bits64 : ℕ → ℤ
of_bits64 b = if ltb b (2 ^ 63) then pos b else negsuc (2 ^ 64 - 1 - b)

-- `int64` multiplication by a constant.
unfoldable pub mul64 : ℤ → ℕ → ℤ
unfolding bits64 of_bits64
mul64 a k = of_bits64 ((bits64 a * k) % 2 ^ 64)

-- `int64(a) - int64(b)` of two `uint64` values.
unfoldable pub sub64 : ℕ → ℕ → ℤ
unfolding of_bits64
sub64 a b = of_bits64 ((a + 2 ^ 64 - b) % 2 ^ 64)

abbrev pub is_positive : ℤ → Bool
is_positive (pos n) = ltb 0 n
is_positive (negsuc n) = false

-- `a < k` for a constant `k` of ℕ.
abbrev pub lt_nat : ℤ → ℕ → Bool
lt_nat (pos n) k = ltb n k
lt_nat (negsuc n) k = true

-- `a / k` rounds towards zero.
unfoldable pub div64 : ℤ → ℕ → ℤ
div64 (pos n) k = pos (n / k)
div64 (negsuc n) k = of_bits64 ((2 ^ 64 - (n + 1) / k) % 2 ^ 64)

-- `a % k` has the sign of `a`.
unfoldable pub rem64 : ℤ → ℕ → ℤ
rem64 (pos n) k = pos (n % k)
rem64 (negsuc n) k = of_bits64 ((2 ^ 64 - (n + 1) % k) % 2 ^ 64)

-- `%d`
unfoldable pub show_int : ℤ → String
show_int (pos n) = decimal n
show_int (negsuc n) = "-" ++ decimal (suc n)

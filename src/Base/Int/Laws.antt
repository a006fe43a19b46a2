-- ===== src/Base/Int/Laws.antt =====
-- Where the `int64` difference of two `uint64` values is their difference.
use Prim.Native.Nat.{ℕ, ◌+◌, ◌^◌, ◌<◌}
use mathlib.Core.Path.{◌≡◌}
use native.Mathlib.Omega.{arith}
use pfsense_agent.Base.Int.{ℤ, pos, negsuc, sub64, of_bits64}

abbrev pub IsDifference : ℤ → ℕ → ℕ → Type 0
IsDifference (pos n) a b = b + n ≡ a
IsDifference (negsuc n) a b = a + (n + 1) ≡ b

pub sub64-IsDifference : (a b : ℕ) → a < 2 ^ 63 → b < 2 ^ 63 → IsDifference (sub64 a b) a b
unfolding sub64 of_bits64
sub64-IsDifference a b ha hb = ground arith

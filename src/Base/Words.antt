-- ===== src/Base/Words.antt =====
-- C's `int` as its bit pattern, a number below 2 ^ 32. The kernel is built so that it wraps.
use Prim.Native.Nat.{ℕ, ◌+◌, ◌-◌, ◌%◌, ◌^◌}
use mathlib.Core.Bool.{Bool}
use cop4610_project.Base.Tests.{ltb, leb}

abbrev pub add32 : ℕ → ℕ → ℕ
add32 a b = (a + b) % 2 ^ 32

abbrev pub sub32 : ℕ → ℕ → ℕ
sub32 a b = (a + 2 ^ 32 - b) % 2 ^ 32

-- the pattern of -1
abbrev pub minus_one : ℕ
minus_one = 2 ^ 32 - 1

-- `<` and `<=` on the signed values: both patterns are shifted by half the range.
abbrev pub signed_ltb : ℕ → ℕ → Bool
signed_ltb a b = ltb ((a + 2 ^ 31) % 2 ^ 32) ((b + 2 ^ 31) % 2 ^ 32)

abbrev pub signed_leb : ℕ → ℕ → Bool
signed_leb a b = leb ((a + 2 ^ 31) % 2 ^ 32) ((b + 2 ^ 31) % 2 ^ 32)

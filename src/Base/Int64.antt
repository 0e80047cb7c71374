-- ===== src/Base/Int64.antt =====
-- Go's `int64`: the 64-bit pattern as a number below 2 ^ 64, in two's complement. Addition,
-- subtraction and negation wrap around; orders are signed.
use Prim.Native.Nat.{ℕ, ◌+◌, ◌-◌, ◌%◌, ◌^◌, ◌<◌}
use mathlib.Core.Bool.{Bool}
use go_handbook_for_software.Base.Tests.{ltb, leb}

abbrev pub add : ℕ → ℕ → ℕ
add a b = (a + b) % 2 ^ 64

abbrev pub neg : ℕ → ℕ
neg a = (2 ^ 64 - a % 2 ^ 64) % 2 ^ 64

abbrev pub sub : ℕ → ℕ → ℕ
sub a b = (a + (2 ^ 64 - b % 2 ^ 64)) % 2 ^ 64

-- the signed order is the order of the patterns moved up by 2 ^ 63
abbrev pub lt : ℕ → ℕ → Bool
lt a b = ltb ((a + 2 ^ 63) % 2 ^ 64) ((b + 2 ^ 63) % 2 ^ 64)

abbrev pub le : ℕ → ℕ → Bool
le a b = leb ((a + 2 ^ 63) % 2 ^ 64) ((b + 2 ^ 63) % 2 ^ 64)

abbrev pub IsWord : ℕ → Type 0
IsWord a = a < 2 ^ 64

-- the patterns of the numbers from 0 on
abbrev pub IsNonneg : ℕ → Type 0
IsNonneg a = a < 2 ^ 63

-- ===== src/Common/Words.antt =====
-- Go's fixed-width integers as bit patterns, with their wrap-around.
use Prim.Native.Nat.{ℕ, ◌+◌, ◌-◌, ◌%◌, ◌^◌}
use mathlib.Core.Bool.{Bool}
use distributed_study.Common.Tests.{ltb}

abbrev pub i64_mod : ℕ
i64_mod = 2 ^ 64

abbrev pub i64_half : ℕ
i64_half = 2 ^ 63

-- int64 `a + b` and `a - b`.
abbrev pub add64 : ℕ → ℕ → ℕ
add64 a b = (a + b) % i64_mod

abbrev pub sub64 : ℕ → ℕ → ℕ
sub64 a b = (a + (i64_mod - b % i64_mod)) % i64_mod

-- int64 `a < b`: the patterns from `2 ^ 63` up stand for the negative numbers.
abbrev pub slt64 : ℕ → ℕ → Bool
slt64 a b = ltb ((a + i64_half) % i64_mod) ((b + i64_half) % i64_mod)

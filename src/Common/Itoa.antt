-- ===== src/Common/Itoa.antt =====
-- Go's `strconv.Itoa` on numbers that are not negative.
use Prim.Native.Nat.{ℕ, zero, suc, ◌+◌, ◌/◌, ◌%◌}
use mathlib.Core.List.{[], ◌∷◌}
use distributed_study.Common.Tests.{ltb, if◌then◌else◌}
use distributed_study.Common.Keys.{Str}

-- The digits of `n` before `acc`; each round takes one digit, so `n + 1` rounds are enough.
unfoldable pub itoa_loop : ℕ → ℕ → Str → Str
itoa_loop zero n acc = acc
itoa_loop (suc fuel) n acc =
    let digit = (b'0' + n % 10) ∷ acc in
    let rest = itoa_loop fuel (n / 10) digit in if ltb n 10 then digit else rest

unfoldable pub itoa : ℕ → Str
unfolding itoa_loop
itoa n = itoa_loop (suc n) n []

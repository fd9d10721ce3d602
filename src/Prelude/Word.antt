-- ===== src/Prelude/Word.antt =====
-- Two's complement words of 64 bits: Go's `int`, `int64` and `time.Duration` wrap around.
use truespec_agent.Prelude.Tests.{ltb, if◌then◌else◌}
use truespec_agent.Prelude.Int.{ℤ, pos, negsuc, pos_part, neg_part}
use Prim.Native.Nat.{ℕ, ◌+◌, ◌-◌, ◌%◌, ◌^◌, ◌<◌, ◌≤◌}
use mathlib.Core.Path.{◌≡◌}
use native.Mathlib.Omega.{arith}

-- The word of bit pattern `u`, read as a signed number.
abbrev pub signed64 : ℕ → ℤ
signed64 u = if ltb u (2 ^ 63) then pos u else negsuc (2 ^ 64 - u - 1)

unfoldable pub wrap64 : ℤ → ℤ
wrap64 z = signed64 ((pos_part z + (2 ^ 64 - neg_part z % 2 ^ 64)) % 2 ^ 64)

abbrev pub InRange64 : ℤ → Type 0
InRange64 z = (pos_part z < 2 ^ 63) × (neg_part z ≤ 2 ^ 63)

-- A number in range is its own word.
pub wrap64_of_InRange64 : (z : ℤ) → InRange64 z → wrap64 z ≡ z
unfolding wrap64
wrap64_of_InRange64 z h = ground arith

pub wrap64-InRange64 : (z : ℤ) → InRange64 (wrap64 z)
unfolding wrap64
wrap64-InRange64 z = ground arith

-- A second, as a `time.Duration` in nanoseconds.
abbrev pub second : ℕ
second = 1_000_000_000

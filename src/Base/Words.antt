-- ===== src/Base/Words.antt =====
-- The unsigned machine integers: saturating operations, and their largest values.
use Prim.Native.Nat.{ℕ, ◌+◌, ◌-◌, ◌*◌, ◌/◌, ◌^◌, min}

-- `u64::MAX`, and `usize::MAX` on a 64-bit host
abbrev pub u64_max : ℕ
u64_max = 2 ^ 64 - 1

abbrev pub u32_max : ℕ
u32_max = 2 ^ 32 - 1

abbrev pub saturating_add : ℕ → ℕ → ℕ
saturating_add a b = min (a + b) u64_max

abbrev pub saturating_mul : ℕ → ℕ → ℕ
saturating_mul a b = min (a * b) u64_max

-- `div_ceil` by a divisor that is not 0
abbrev pub div_ceil : ℕ → ℕ → ℕ
div_ceil a d = (a + d - 1) / d

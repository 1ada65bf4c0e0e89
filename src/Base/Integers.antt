-- ===== src/Base/Integers.antt =====
-- The signed machine integers, over the native ℕ.
use Prim.Native.Nat.{ℕ}

-- `negsuc n` is minus `n + 1`.
pub data ℤ : Type 0 where
  pos negsuc : ℕ → ℤ

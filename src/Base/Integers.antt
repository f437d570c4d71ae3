-- ===== src/Base/Integers.antt =====
-- Whole numbers with a sign, over the native numbers.
use Prim.Native.Nat.{ℕ}

pub data ℤ : Type 0 where
  pos negsuc : ℕ → ℤ

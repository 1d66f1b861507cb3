-- ===== src/Prelude/Integers.antt =====
-- Integers over the native numbers, as JSON has them.
use Prim.Native.Nat.{ℕ}

pub data ℤ : Type 0 where
  pos negsuc : ℕ → ℤ

-- ===== src/Base/Integers.antt =====
-- Whole numbers without bound, as `bigint` has them.
use Prim.Native.Nat.{ℕ}

-- `negsuc n` is the negative of one more than `n`.
pub data ℤ : Type 0 where
  pos negsuc : ℕ → ℤ

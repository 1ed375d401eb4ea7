-- ===== src/Prelude/Int.antt =====
-- Integers, for what the code receives from a function that it is given and tests for its sign.
use Prim.Native.Nat.{ℕ}

-- `negsuc n` is -(n + 1).
pub data ℤ : Type 0 where
  pos : ℕ → ℤ
  negsuc : ℕ → ℤ

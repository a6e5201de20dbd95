-- ===== src/Base/Int.antt =====
-- Signed results of system calls: an isize that the code only builds and compares.
use Prim.Native.Nat.{ℕ}

-- `negsuc n` is -(n + 1).
pub data ℤ : Type 0 where
  pos : ℕ → ℤ
  negsuc : ℕ → ℤ

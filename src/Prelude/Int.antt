-- ===== src/Prelude/Int.antt =====
-- The signed integers that a Rust `i32` or `i64` holds: `pos n` is n and `negsuc n` is -(n + 1).
use Prim.Native.Nat.{ℕ}

pub data ℤ : Type 0 where
  pos negsuc : ℕ → ℤ

-- ===== src/Base/Int.antt =====
-- The C++ `int`, where its sign matters: row numbers, timeouts, status codes.
use Prim.Native.Nat.{ℕ}
use mathlib.Core.Bool.{Bool, false}
use flowdriver.Base.Tests.{nat_eq}

-- `negsuc n` is -(n + 1).
pub data ℤ : Type 0 where
  pos : ℕ → ℤ
  negsuc : ℕ → ℤ

abbrev pub int_eq : ℤ → ℤ → Bool
int_eq (pos a) (pos b) = nat_eq a b
int_eq (negsuc a) (negsuc b) = nat_eq a b
int_eq _ _ = false

-- ===== src/Base/Int.antt =====
-- C's `int` as two copies of the native numbers, under the library's names, with the comparison and
-- the little arithmetic that the kernel does on it.
use Prim.Native.Nat.{ℕ, zero, suc, ◌+◌, ◌-◌}
use mathlib.Core.Path.{◌≡◌}
use mathlib.Core.Bool.{Bool, true, false}
use native.Mathlib.Omega.{arith}
use tps_sis_ops.Base.Tests.{ltb, ◌==◌, if◌then◌else◌}

-- `negsuc n` is -(n + 1).
pub data ℤ : Type 0 where
  pos : ℕ → ℤ
  negsuc : ℕ → ℤ

abbrev pub ltb_int : ℤ → ℤ → Bool
ltb_int (pos a) (pos b) = ltb a b
ltb_int (pos _) (negsuc _) = false
ltb_int (negsuc _) (pos _) = true
ltb_int (negsuc a) (negsuc b) = ltb b a

abbrev pub eqb_int : ℤ → ℤ → Bool
eqb_int (pos a) (pos b) = a == b
eqb_int (pos _) (negsuc _) = false
eqb_int (negsuc _) (pos _) = false
eqb_int (negsuc a) (negsuc b) = a == b

abbrev pub add_nat : ℤ → ℕ → ℤ
add_nat (pos a) n = pos (a + n)
add_nat (negsuc a) n = if ltb a n then pos (n - suc a) else negsuc (a - n)

abbrev pub pred_int : ℤ → ℤ
pred_int (pos zero) = negsuc 0
pred_int (pos (suc n)) = pos n
pred_int (negsuc n) = negsuc (suc n)

pub eq_of_eqb_int : (a b : ℤ) → eqb_int a b ≡ true → a ≡ b
eq_of_eqb_int (pos a) (pos b) h = ground arith
eq_of_eqb_int (pos a) (negsuc b) h = ground arith
eq_of_eqb_int (negsuc a) (pos b) h = ground arith
eq_of_eqb_int (negsuc a) (negsuc b) h = ground arith

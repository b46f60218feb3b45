-- ===== src/Base/Integers.antt =====
-- C's `int`, where a negative number is a result of its own.
use Prim.Native.Nat.{ℕ, ◌+◌, ◌-◌}
use mathlib.Core.Path.{◌≡◌}
use native.Mathlib.Omega.{arith}
use course_project_os_integr.Base.Tests.{ltb, leb, if◌then◌else◌}

-- `pos n` is n, `negsuc n` is -(n + 1).
pub data ℤ : Type 0 where
  pos : ℕ → ℤ
  negsuc : ℕ → ℤ

unfoldable pub add_nat : ℤ → ℕ → ℤ
add_nat (pos n) k = pos (n + k)
add_nat (negsuc n) k = if ltb n k then pos (k - n - 1) else negsuc (n - k)

unfoldable pub sub_nat : ℤ → ℕ → ℤ
sub_nat (pos n) k = if leb k n then pos (n - k) else negsuc (k - n - 1)
sub_nat (negsuc n) k = negsuc (n + k)

pub sub_nat-add_nat : (z : ℤ) (k : ℕ) → sub_nat (add_nat z k) k ≡ z
unfolding add_nat sub_nat
sub_nat-add_nat (pos n) k = ground arith
sub_nat-add_nat (negsuc n) k = ground arith

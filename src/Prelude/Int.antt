-- ===== src/Prelude/Int.antt =====
-- Integers as a sign and a native number.
use Prim.Native.Nat.{ℕ, suc, ◌+◌, ◌-◌}
use mathlib.Core.Path.{◌≡◌}
use native.Mathlib.Omega.{arith}
use concurrent_computing.Prelude.Tests.{leb, if◌then◌else◌}

-- `negsuc n` is -(n + 1).
pub data ℤ : Type 0 where
  pos : ℕ → ℤ
  negsuc : ℕ → ℤ

-- The integer as a difference.
abbrev above : ℤ → ℕ
above (pos n) = n
above (negsuc n) = 0

abbrev below : ℤ → ℕ
below (pos n) = 0
below (negsuc n) = suc n

abbrev difference : ℕ → ℕ → ℤ
difference m n = if leb n m then pos (m - n) else negsuc (n - m - 1)

infixl 65 ◌+ℤ◌ ◌-ℤ◌
unfoldable pub ◌+ℤ◌ : ℤ → ℤ → ℤ
x +ℤ y = difference (above x + above y) (below x + below y)

unfoldable pub ◌-ℤ◌ : ℤ → ℤ → ℤ
x -ℤ y = difference (above x + below y) (below x + above y)

pub +ℤ_comm : (x y : ℤ) → x +ℤ y ≡ y +ℤ x
unfolding ◌+ℤ◌
+ℤ_comm x y = ground arith

pub +ℤ_assoc : (x y z : ℤ) → x +ℤ y +ℤ z ≡ x +ℤ (y +ℤ z)
unfolding ◌+ℤ◌
+ℤ_assoc x y z = ground arith

pub -ℤ-+ℤ : (x y : ℤ) → x -ℤ y +ℤ y ≡ x
unfolding ◌+ℤ◌ ◌-ℤ◌
-ℤ-+ℤ x y = ground arith

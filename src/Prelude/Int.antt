-- ===== src/Prelude/Int.antt =====
-- Go's signed integers where the code can reach a negative value: budgets, intervals and
-- configured sizes. The values stay far below the limits of `int`, which are not modelled.
use Prim.Native.Nat.{ℕ, zero, suc, ◌+◌, ◌-◌}
use mathlib.Core.Bool.{Bool, true, false}
use topo.Prelude.Tests.{leb, ltb, if◌then◌else◌}

-- `negsuc n` is -(n + 1).
pub data ℤ : Type 0 where
  pos : ℕ → ℤ
  negsuc : ℕ → ℤ

-- a - b, as an integer.
abbrev pub sub_ℕ : ℕ → ℕ → ℤ
sub_ℕ a b = if leb b a then pos (a - b) else negsuc (b - a - 1)

infixl 65 ◌-ℤ◌
-- z - n, for a length n.
abbrev pub ◌-ℤ◌ : ℤ → ℕ → ℤ
pos a -ℤ n = sub_ℕ a n
negsuc a -ℤ n = negsuc (a + n)

-- z < n and n < z, for a constant n.
abbrev pub lt_ℕ : ℤ → ℕ → Bool
lt_ℕ (pos a) n = ltb a n
lt_ℕ (negsuc a) n = true

abbrev pub gt_ℕ : ℤ → ℕ → Bool
gt_ℕ (pos a) n = ltb n a
gt_ℕ (negsuc a) n = false

-- The test for zero, which the configuration reads as "not set".
abbrev pub is_zero : ℤ → Bool
is_zero (pos zero) = true
is_zero (pos (suc n)) = false
is_zero (negsuc n) = false

-- The value, where it is known not to be negative.
abbrev pub to_ℕ : ℤ → ℕ
to_ℕ (pos n) = n
to_ℕ (negsuc n) = 0

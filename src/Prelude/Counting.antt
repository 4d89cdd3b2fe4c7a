-- ===== src/Prelude/Counting.antt =====
-- How many elements of a list pass a test. A statement "exactly one element has x" is an equation
-- between such counts, and says that the elements cover x and do not overlap at x.
use Prim.Native.Nat.{ℕ, ◌+◌}
use mathlib.Core.Path.{◌≡◌, refl}
use mathlib.Core.Bool.{Bool, true, false, not}
use mathlib.Core.List.{List, [], ◌∷◌, ◌++◌}
use native.Mathlib.Omega.{arith}
use topo.Prelude.Tests.{◌==◌}
use topo.Prelude.Lists.{any}

-- 1 for true and 0 for false.
abbrev pub to_count : Bool → ℕ
to_count true = 1
to_count false = 0

module _ {ℓ} {A : Type ℓ} where
  abbrev pub count : (A → Bool) → List A → ℕ
  count p [] = 0
  count p (x ∷ xs) = to_count (p x) + count p xs

  pub count-append : (p : A → Bool) (xs ys : List A) → count p (xs ++ ys) ≡ count p xs + count p ys
  count-append p [] ys = omega arith
  count-append p (x ∷ xs) ys = omega (arith, count-append p xs ys)

  pub count-any : (p : A → Bool) (xs : List A) → any p xs ≡ false → count p xs ≡ 0
  count-any p [] h = refl
  count-any p (x ∷ xs) h = ground (arith, count-any p xs)

-- An element that passes is counted.
pub any-count {ℓ} : {A : Type ℓ} (p : A → Bool) (xs : List A) → any p xs ≡ not (count p xs == 0)
any-count p [] = refl
any-count p (x ∷ xs) = ground (arith, any-count p xs)

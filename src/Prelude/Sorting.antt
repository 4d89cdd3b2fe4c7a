-- ===== src/Prelude/Sorting.antt =====
-- `sort.Slice` with a `less` function, as an insertion sort: where the order leaves ties, Go may
-- return them in any order, so theorems use only what every such sort has.
use Prim.Native.Nat.{◌+◌}
use mathlib.Core.Path.{◌≡◌, refl}
use mathlib.Core.Logic.{inl, inr}
use mathlib.Core.Bool.{Bool, true, false}
use mathlib.Core.List.{List, [], ◌∷◌}
use native.Mathlib.Omega.{arith}
use topo.Prelude.Tests.{if◌then◌else◌, Bool-cases}
use topo.Prelude.Lists.{length, All}
use topo.Prelude.Counting.{to_count, count}

-- What `sort.Slice` needs of `less`: a strict order in which "neither is less" is transitive.
pub record IsLess {ℓ} {A : Type ℓ} (less : A → A → Bool) : Type ℓ where
  pub asym : (x y : A) → less x y ≡ true → less y x ≡ false
  pub trans : (x y z : A) → less y x ≡ false → less z y ≡ false → less z x ≡ false

module _ {ℓ} {A : Type ℓ} (less : A → A → Bool) where
  unfoldable pub insert_sorted : A → List A → List A
  insert_sorted x [] = x ∷ []
  insert_sorted x (y ∷ ys) = if less y x then y ∷ insert_sorted x ys else x ∷ y ∷ ys

  unfoldable pub sort_slice : List A → List A
  sort_slice [] = []
  sort_slice (x ∷ xs) = insert_sorted x (sort_slice xs)

  -- No element is less than one before it.
  abbrev pub Sorted : List A → Type ℓ
  Sorted [] = Unit
  Sorted (x ∷ xs) = All (λ y. less y x ≡ false) xs × Sorted xs

  count-insert_sorted :
      (p : A → Bool) (x : A) (xs : List A)
      → count p (insert_sorted x xs) ≡ to_count (p x) + count p xs
  unfolding insert_sorted
  count-insert_sorted p x [] = refl
  count-insert_sorted p x (y ∷ ys) = ground (arith, count-insert_sorted p x ys)

  pub count-sort_slice : (p : A → Bool) (xs : List A) → count p (sort_slice xs) ≡ count p xs
  unfolding sort_slice
  count-sort_slice p [] = refl
  count-sort_slice p (x ∷ xs) =
      ground (arith, count-insert_sorted p x (sort_slice xs), count-sort_slice p xs)

  length-insert_sorted : (x : A) (xs : List A) → length (insert_sorted x xs) ≡ length xs + 1
  unfolding insert_sorted
  length-insert_sorted x [] = omega arith
  length-insert_sorted x (y ∷ ys) = ground (arith, length-insert_sorted x ys)

  pub length-sort_slice : (xs : List A) → length (sort_slice xs) ≡ length xs
  unfolding sort_slice
  length-sort_slice [] = refl
  length-sort_slice (x ∷ xs) =
      omega (arith, length-insert_sorted x (sort_slice xs), length-sort_slice xs)

  module _ {κ} (P : A → Type κ) where
    All-insert_sorted : (x : A) (xs : List A) → P x → All P xs → All P (insert_sorted x xs)
    unfolding insert_sorted
    All-insert_sorted x [] h k = (h, tt)
    All-insert_sorted x (y ∷ ys) h k =
        elim (less y x) as (λ b. All P (if b then y ∷ insert_sorted x ys else x ∷ y ∷ ys)) [
          | true ↦ (k.0, All-insert_sorted x ys h k.1)
          | false ↦ (h, k)
        ]

    pub All-sort_slice : (xs : List A) → All P xs → All P (sort_slice xs)
    unfolding sort_slice
    All-sort_slice [] h = tt
    All-sort_slice (x ∷ xs) h = All-insert_sorted x (sort_slice xs) h.0 (All-sort_slice xs h.1)

  module _ (l : IsLess less) where
    below-All :
        (x y : A) (zs : List A)
        → less y x ≡ false
        → All (λ z. less z y ≡ false) zs
        → All (λ z. less z x ≡ false) zs
    below-All x y [] h k = tt
    below-All x y (z ∷ zs) h k = (l.trans x y z h k.0, below-All x y zs h k.1)

    insert_sorted-Sorted : (x : A) (xs : List A) → Sorted xs → Sorted (insert_sorted x xs)
    unfolding insert_sorted
    insert_sorted-Sorted x [] s = (tt, tt)
    insert_sorted-Sorted x (y ∷ ys) s = elim (Bool-cases (less y x)) [
      | inl b ↦ rw b (
        All-insert_sorted (λ z. less z y ≡ false) x ys (l.asym y x b) s.0,
        insert_sorted-Sorted x ys s.1,
      )
      | inr b ↦ rw b ((b, below-All x y ys b s.0), s)
    ]

    pub sort_slice-Sorted : (xs : List A) → Sorted (sort_slice xs)
    unfolding sort_slice
    sort_slice-Sorted [] = tt
    sort_slice-Sorted (x ∷ xs) = insert_sorted-Sorted x (sort_slice xs) (sort_slice-Sorted xs)

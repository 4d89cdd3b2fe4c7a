-- ===== src/Prelude/Maps.antt =====
-- Go's `map[string]V` as an association list. The order of the list stands for the order in which
-- the runtime iterates over the map, which Go leaves open: theorems hold for every list.
use Prim.Native.Nat.{◌+◌}
use Prim.Native.String.{String}
use mathlib.Core.Path.{◌≡◌, refl}
use mathlib.Core.Logic.{◌≢◌}
use mathlib.Core.Option.{Option, none, some}
use mathlib.Core.List.{List, [], ◌∷◌}
use native.Mathlib.Omega.{arith}
use text.Mathlib.Text.{◌==◌}
use text.Mathlib.TextEquality.{eq_iff}
use topo.Prelude.Tests.{if◌then◌else◌}
use topo.Prelude.Lists.{length}

abbrev pub GoMap {ℓ} : Type ℓ → Type ℓ
GoMap V = List (String × V)

module _ {ℓ} {V : Type ℓ} where
  -- `v, ok := m[key]`
  unfoldable pub lookup : GoMap V → String → Option V
  lookup [] key = none
  lookup ((name, v) ∷ rest) key = if key == name then some v else lookup rest key

  -- `m[key] = value`: an old entry keeps its place.
  unfoldable pub store : GoMap V → String → V → GoMap V
  store [] key value = (key, value) ∷ []
  store ((name, v) ∷ rest) key value =
      let others = store rest key value in
      if key == name then (name, value) ∷ rest else (name, v) ∷ others

  -- `delete(m, key)`
  unfoldable pub delete : GoMap V → String → GoMap V
  delete [] key = []
  delete ((name, v) ∷ rest) key =
      let others = delete rest key in if key == name then others else (name, v) ∷ others

  -- A Go map has each key once.
  abbrev pub Distinct : GoMap V → Type ℓ
  Distinct [] = Unit
  Distinct ((name, v) ∷ rest) = (lookup rest name ≡ none) × Distinct rest

  pub lookup-store :
      (m : GoMap V) (key other : String) (value : V)
      → lookup (store m key value) other ≡ (if other == key then some value else lookup m other)
  unfolding lookup store
  lookup-store [] key other value = refl
  lookup-store ((name, v) ∷ rest) key other value = ground (
    arith,
    lookup-store rest key other value,
    eq_iff other key,
    eq_iff other name,
    eq_iff key name,
  )

  pub lookup-delete :
      (m : GoMap V) (key other : String)
      → lookup (delete m key) other ≡ (if other == key then none else lookup m other)
  unfolding lookup delete
  lookup-delete [] key other = ground arith
  lookup-delete ((name, v) ∷ rest) key other =
      ground
        (arith, lookup-delete rest key other, eq_iff other key, eq_iff other name, eq_iff key name)

  pub lookup-store_self :
      (m : GoMap V) (key : String) (value : V) → lookup (store m key value) key ≡ some value
  lookup-store_self m key value = ground (arith, lookup-store m key key value, eq_iff key key)

  pub lookup-store_ne :
      (m : GoMap V) (key other : String) (value : V)
      → other ≢ key
      → lookup (store m key value) other ≡ lookup m other
  lookup-store_ne m key other value ne =
      ground (arith, lookup-store m key other value, eq_iff other key)

  pub store-Distinct :
      (m : GoMap V) (key : String) (value : V) → Distinct m → Distinct (store m key value)
  unfolding lookup store
  store-Distinct [] key value d = (refl, tt)
  store-Distinct ((name, v) ∷ rest) key value d = ground (
    arith,
    lookup-store rest key name value,
    store-Distinct rest key value,
    eq_iff key name,
    eq_iff name key,
  )

  pub delete-Distinct : (m : GoMap V) (key : String) → Distinct m → Distinct (delete m key)
  unfolding lookup delete
  delete-Distinct [] key d = tt
  delete-Distinct ((name, v) ∷ rest) key d = ground (
    arith,
    lookup-delete rest key name,
    delete-Distinct rest key,
    eq_iff key name,
    eq_iff name key,
  )

  -- `len(m)` grows by one at a new key only.
  pub length-store :
      (m : GoMap V) (key : String) (value : V)
      → length (store m key value) ≡ elim (lookup m key) [ none ↦ length m + 1 | some _ ↦ length m ]
  unfolding lookup store
  length-store [] key value = omega arith
  length-store ((name, v) ∷ rest) key value = ground (arith, length-store rest key value)

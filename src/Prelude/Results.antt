-- ===== src/Prelude/Results.antt =====
-- Go's `(value, error)` results: a value, or an error of the module's own error type.
use mathlib.Core.Path.{◌≡◌, refl}
use mathlib.Core.Logic.{◌⊎◌, inl, inr}
use mathlib.Core.Bool.{Bool, true, false}
use mathlib.Core.List.{List, [], ◌∷◌}
use native.Mathlib.Omega.{arith}
use topo.Prelude.Tests.{if◌then◌else◌}

pub data Result {ℓ} (E : Type 0) (A : Type ℓ) : Type ℓ where
  err : E → Result E A
  ok : A → Result E A

module _ {E : Type 0} where
  infixl 5 ◌>>=◌ ◌>>◌
  -- `value, err := first; if err != nil { return err }`
  abbrev pub ◌>>=◌ {ℓ κ} : {A : Type ℓ} {B : Type κ} → Result E A → (A → Result E B) → Result E B
  err failure >>= continue = err failure
  ok value >>= continue = continue value

  abbrev pub ◌>>◌ {κ} : {B : Type κ} → Result E (Unit {0}) → Result E B → Result E B
  first >> second = first >>= λ _. second

  -- `if bad { return err }`
  abbrev pub refuse_if : Bool → E → Result E (Unit {0})
  refuse_if bad e = if bad then err e else ok tt

  -- A row of such checks: the error of the first that fails.
  abbrev pub first_refusal : List (Bool × E) → Result E (Unit {0})
  first_refusal [] = ok tt
  first_refusal ((bad, e) ∷ checks) = if bad then err e else first_refusal checks

  -- If a chain returns, then its first step did.
  pub bind-returns {ℓ κ} :
      {A : Type ℓ} {B : Type κ} {result : B} (first : Result E A) (continue : A → Result E B)
      → (first >>= continue) ≡ ok result
      → (value : A) × (first ≡ ok value) × (continue value ≡ ok result)
  bind-returns (err failure) continue e = ground arith
  bind-returns (ok value) continue e = (value, refl, e)

  -- To split on a computed result and keep the equation.
  pub Result-cases {ℓ} :
      {A : Type ℓ} (r : Result E A)
      → ((value : A) × (r ≡ ok value)) ⊎ ((failure : E) × (r ≡ err failure))
  Result-cases (err failure) = inr (failure, refl)
  Result-cases (ok value) = inl (value, refl)

  pub ok-injective {ℓ} : {A : Type ℓ} {a b : A} → ◌≡◌ {A = Result E A} (ok a) (ok b) → a ≡ b
  ok-injective h = cc

  -- A refusal that did not happen.
  pub if_err-eq-ok {ℓ} :
      {A : Type ℓ} {a : A} (bad : Bool) (e : E) (r : Result E A)
      → (if bad then err e else r) ≡ ok a
      → (bad ≡ false) × (r ≡ ok a)
  if_err-eq-ok true e r h = cc
  if_err-eq-ok false e r h = (refl, h)

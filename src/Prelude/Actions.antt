-- ===== src/Prelude/Actions.antt =====
-- Methods that change an object and may return an error: the object comes back in either case, and
-- the text of the error, which callers only log, does not.
use mathlib.Core.Path.{◌≡◌, refl}
use mathlib.Core.Bool.{Bool, true, false}
use mathlib.Core.Option.{Option, none, some}
use topo.Prelude.Tests.{if◌then◌else◌}

abbrev pub Action {ℓ} : Type ℓ → Type ℓ → Type ℓ
Action S A = S → S × Option A

module _ {ℓ} {S A : Type ℓ} where
  unfoldable pub return : A → Action S A
  return a s = (s, some a)

  unfoldable pub fail : Action S A
  fail s = (s, none)

  -- A value that was computed without touching the object, or its error.
  unfoldable pub lift : Option A → Action S A
  lift o s = (s, o)

module _ {ℓ} {S A B : Type ℓ} where
  abbrev pub continue : S → Option A → (A → Action S B) → S × Option B
  continue s none k = (s, none)
  continue s (some a) k = k a s

  infixl 10 ◌>>=◌ ◌>>◌
  unfoldable pub ◌>>=◌ : Action S A → (A → Action S B) → Action S B
  ◌>>=◌ m k s = let (t, o) = m s in continue t o k

  abbrev pub ◌>>◌ : Action S A → Action S B → Action S B
  m >> n = m >>= λ _. n

-- `if !wanted { return errors.New(…) }`
unfoldable pub require : {S : Type 0} → Bool → Action S (Unit {0})
unfolding return fail
require true = return tt
require false = fail

-- What is known of the value of a success.
abbrev pub OnSome : {A : Type 0} → (A → Type 0) → Option A → Type 0
OnSome Q none = Unit
OnSome Q (some a) = Q a

OnSome-map :
    {A : Type 0} (Q R : A → Type 0)
    → ((a : A) → Q a → R a)
    → (o : Option A) → OnSome Q o
    → OnSome R o
OnSome-map Q R f none q = tt
OnSome-map Q R f (some a) q = f a q

pub OnSome-unit : {A : Type 0} (o : Option A) → OnSome (λ _. Unit {0}) o
OnSome-unit none = tt
OnSome-unit (some a) = tt

-- The action keeps the invariant, also where it fails, and a value that it returns satisfies Q.
pub record Ensures {S A : Type 0} (P : S → Type 0) (m : Action S A) (Q : A → Type 0) : Type 0 where
  pub at : (s : S) → P s → P (m s).0 × OnSome Q (m s).1

module _ {S A : Type 0} {P : S → Type 0} where
  pub Ensures-return : (a : A) (Q : A → Type 0) → Q a → Ensures P (return a) Q
  unfolding return
  Ensures-return a Q q = record { at = λ s h. (h, q) }

  pub Ensures-fail : (Q : A → Type 0) → Ensures P (fail {A = A}) Q
  unfolding fail
  Ensures-fail Q = record { at = λ s h. (h, tt) }

  pub Ensures-lift : (o : Option A) (Q : A → Type 0) → OnSome Q o → Ensures P (lift o) Q
  unfolding lift
  Ensures-lift o Q q = record { at = λ s h. (h, q) }

  pub Ensures-if :
      (b : Bool) (m n : Action S A) (Q : A → Type 0)
      → (b ≡ true → Ensures P m Q)
      → (b ≡ false → Ensures P n Q)
      → Ensures P (if b then m else n) Q
  Ensures-if true m n Q hm hn = hm refl
  Ensures-if false m n Q hm hn = hn refl

  -- Less may be said of the value.
  pub Ensures-weaken :
      (m : Action S A) (Q R : A → Type 0) → Ensures P m Q → ((a : A) → Q a → R a) → Ensures P m R
  Ensures-weaken m Q R e f = record {
    at = λ s h. let (p, q) = e.at s h in (p, OnSome-map Q R f (m s).1 q);
  }

module _ {S : Type 0} {P : S → Type 0} where
  pub Ensures-require : (b : Bool) → Ensures P (require b) (λ _. b ≡ true)
  unfolding require
  Ensures-require true = record { at = λ s h. (h, refl) }
  Ensures-require false = record { at = λ s h. (h, tt) }

module _ {S A B : Type 0} {P : S → Type 0} where
  Ensures-continue :
      (s : S) (o : Option A) (k : A → Action S B) (Q : A → Type 0) (R : B → Type 0)
      → P s
      → OnSome Q o
      → ((a : A) → Q a → Ensures P (k a) R)
      → P (continue s o k).0 × OnSome R (continue s o k).1
  Ensures-continue s none k Q R h q f = (h, tt)
  Ensures-continue s (some a) k Q R h q f = (f a q).at s h

  pub Ensures-bind :
      (m : Action S A) (k : A → Action S B) (Q : A → Type 0) (R : B → Type 0)
      → Ensures P m Q
      → ((a : A) → Q a → Ensures P (k a) R)
      → Ensures P (m >>= k) R
  unfolding ◌>>=◌
  Ensures-bind m k Q R e f = record {
    at = λ s h. let (p, q) = e.at s h in Ensures-continue (m s).0 (m s).1 k Q R p q f;
  }

module _ {S B : Type 0} {P : S → Type 0} where
  pub Ensures-guard :
      (b : Bool) (k : Action S B) (R : B → Type 0)
      → (b ≡ true → Ensures P k R)
      → Ensures P (require b >> k) R
  Ensures-guard b k R f =
      Ensures-bind (require b) (λ _. k) (λ _. b ≡ true) R (Ensures-require b) (λ _ e. f e)

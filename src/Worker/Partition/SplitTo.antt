-- ===== src/Worker/Partition/SplitTo.antt =====
-- partition.go: what `splitToPrefix` returns.
use topo.Prelude.{
  ℕ, zero, suc, ◌≤◌, ◌<◌, ◌≡◌, inl, inr, refl, true, false, List, [], ◌∷◌, ◌++◌, length,
  length-append, to_count, count-append, All, All-append, arith, leb, Result, ok, ◌>>=◌,
  bind-returns, ok-injective, if_err-eq-ok, subst, Bool-cases, ℤ, ◌-ℤ◌, to_ℕ, lt_ℕ,
}
use topo.Worker.Prefix.{Addr, Prefix, IsMasked, bit_len, contains}
use topo.Worker.Partition.{PlanError, split_prefix, split_to_step, split_to_prefix, limit_exceeded}
use topo.Worker.Partition.Split.{
  lower, upper, split_prefix_ok, lower-IsMasked, upper-IsMasked, count-halves,
}
use topo.Worker.Partition.Subtract.{count_at}

-- A part has the target length at least, and is of the same family.
abbrev pub IsPart : Prefix → ℕ → Prefix → Type 0
IsPart prefix target p = IsMasked p × (target ≤ p.bits) × (p.is4 ≡ prefix.is4)

-- The addresses of `prefix`, each in one part; every part has the target length at least, and
-- there are no more parts than the budget.
pub record SplitsTo (prefix : Prefix) (target : ℕ) (budget : ℤ) (parts : List Prefix) : Type 0 where
  pub counts : (x : Addr) → count_at x parts ≡ to_count (contains prefix x)
  pub all_parts : All (IsPart prefix target) parts
  pub bounded : length parts ≤ to_ℕ budget

SplitsTo-append :
    (prefix : Prefix) (target : ℕ) (budget : ℤ) (ls rs : List Prefix)
    → IsMasked prefix
    → prefix.bits < bit_len prefix.is4
    → lt_ℕ (budget -ℤ length ls) 1 ≡ false
    → SplitsTo (lower prefix) target budget ls
    → SplitsTo (upper prefix) target (budget -ℤ length ls) rs
    → SplitsTo prefix target budget (ls ++ rs)
SplitsTo-append prefix target budget ls rs m l b hl hr = record {
  counts = λ x.
      rw (count-append (λ p. contains p x) ls rs, hl.counts x, hr.counts x)
        (count-halves prefix m l x);
  all_parts = All-append (IsPart prefix target) ls rs hl.all_parts hr.all_parts;
  bounded = ground (arith, length-append ls rs, hl.bounded, hr.bounded);
}

abbrev pub SplitsWhenOk : (Prefix → ℕ → ℤ → Result PlanError (List Prefix)) → Type 0
SplitsWhenOk rec =
    (prefix : Prefix) (target : ℕ) (budget : ℤ) (parts : List Prefix)
    → IsMasked prefix
    → target ≤ bit_len prefix.is4
    → rec prefix target budget ≡ ok parts
    → (lt_ℕ budget 1 ≡ false) × SplitsTo prefix target budget parts

module _ (rec : Prefix → ℕ → ℤ → Result PlanError (List Prefix)) (r : SplitsWhenOk rec) where
  split_to_halves :
      (prefix : Prefix) (target : ℕ) (budget : ℤ) (parts : List Prefix)
      → IsMasked prefix
      → target ≤ bit_len prefix.is4
      → prefix.bits < bit_len prefix.is4
      → (do
        halves ← split_prefix prefix
        left_parts ← rec halves.0 target budget
        right_parts ← rec halves.1 target (budget -ℤ length left_parts)
        ok (left_parts ++ right_parts))
        ≡ ok parts
      → SplitsTo prefix target budget parts
  split_to_halves prefix target budget parts m t l h0 =
      let h = rw (split_prefix_ok prefix m l) at h0 in
      let (ls, el, h') = bind-returns (rec (lower prefix) target budget) _ h in
      let (rs, er, h'') = bind-returns (rec (upper prefix) target (budget -ℤ length ls)) _ h' in
      let left = r (lower prefix) target budget ls (lower-IsMasked prefix m l) t el in
      let right =
        r (upper prefix) target (budget -ℤ length ls) rs (upper-IsMasked prefix m l) t er in
      subst (SplitsTo prefix target budget) (ok-injective h'')
        (SplitsTo-append prefix target budget ls rs m l right.0 left.1 right.1)

  whole :
      (prefix : Prefix) (target : ℕ) (budget : ℤ)
      → IsMasked prefix
      → lt_ℕ budget 1 ≡ false
      → leb target prefix.bits ≡ true
      → SplitsTo prefix target budget (prefix ∷ [])
  whole prefix target budget m b t = record {
    counts = λ x. omega arith;
    all_parts = ((m, ground arith, refl), tt);
    bounded = ground arith;
  }

  split_to_step-SplitsTo : SplitsWhenOk (split_to_step rec)
  unfolding split_to_step
  split_to_step-SplitsTo prefix target budget parts m t h =
      let (b, h') = if_err-eq-ok (lt_ℕ budget 1) limit_exceeded _ h in
      (
        b,
        elim (Bool-cases (leb target prefix.bits)) [
          | inl done ↦
              subst (SplitsTo prefix target budget) (ok-injective (rw done at h'))
                (whole prefix target budget m b done)
          | inr more ↦ split_to_halves prefix target budget parts m t (ground arith) (rw more at h')
        ],
      )

pub split_to_prefix-SplitsTo : (fuel : ℕ) → SplitsWhenOk (split_to_prefix fuel)
unfolding split_to_prefix
split_to_prefix-SplitsTo zero prefix target budget parts m t h = cc
split_to_prefix-SplitsTo (suc fuel) prefix target budget parts m t h =
    split_to_step-SplitsTo (split_to_prefix fuel) (split_to_prefix-SplitsTo fuel) prefix target
      budget parts m t h

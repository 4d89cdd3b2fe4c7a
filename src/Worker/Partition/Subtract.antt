-- ===== src/Worker/Partition/Subtract.antt =====
-- partition.go: what `subtractPrefix` returns.
use topo.Prelude.{
  ℕ, zero, suc, ◌+◌, ◌≤◌, ◌<◌, ◌≡◌, inl, inr, true, false, not, ◌&&◌, List, [], ◌∷◌, ◌++◌, length,
  length-append, to_count, count, count-append, All, All-append, arith, leb, Result, ok, ◌>>=◌,
  bind-returns, ok-injective, if_err-eq-ok, subst, Bool-cases, ℤ, ◌-ℤ◌, to_ℕ, lt_ℕ,
}
use topo.Worker.Prefix.{Addr, Prefix, IsMasked, bit_len, contains, overlaps, first}
use topo.Worker.Prefix.Laws.{
  disjoint_of_overlaps, contains_of_first, first_of_overlaps, family_of_overlaps,
}
use topo.Worker.Partition.{PlanError, split_prefix, subtract_step, subtract_prefix, limit_exceeded}
use topo.Worker.Partition.Split.{
  lower, upper, split_prefix_ok, lower-IsMasked, upper-IsMasked, count-halves,
}

-- How many of the prefixes contain an address.
abbrev pub count_at : Addr → List Prefix → ℕ
count_at x = count (λ p. contains p x)

-- The addresses of `base` outside `deny`, each in one part, within the budget.
pub record Subtracts (base deny : Prefix) (budget : ℤ) (parts : List Prefix) : Type 0 where
  pub counts : (x : Addr) → count_at x parts ≡ to_count (contains base x && not (contains deny x))
  pub all_masked : All IsMasked parts
  pub bounded : length parts ≤ to_ℕ budget + 1

-- A base that overlaps `deny`, and is not inside it, is no single address.
pub splittable :
    (base deny : Prefix)
    → IsMasked base
    → IsMasked deny
    → overlaps base deny ≡ true
    → (leb deny.bits base.bits && contains deny (first base)) ≡ false
    → base.bits < bit_len base.is4
splittable base deny mb md o c =
    ground (arith, first_of_overlaps deny base, family_of_overlaps base deny, mb.fits, md.fits)

-- The parts of the two halves make up the parts of the whole.
Subtracts-append :
    (base deny : Prefix) (budget : ℤ) (ls rs : List Prefix)
    → IsMasked base
    → base.bits < bit_len base.is4
    → lt_ℕ budget 0 ≡ false
    → lt_ℕ (budget -ℤ length ls) 0 ≡ false
    → Subtracts (lower base) deny budget ls
    → Subtracts (upper base) deny (budget -ℤ length ls) rs
    → Subtracts base deny budget (ls ++ rs)
Subtracts-append base deny budget ls rs m l b b' hl hr = record {
  counts = λ x.
      rw (count-append (λ p. contains p x) ls rs, hl.counts x, hr.counts x)
        (ground (arith, count-halves base m l x));
  all_masked = All-append IsMasked ls rs hl.all_masked hr.all_masked;
  bounded = ground (arith, length-append ls rs, hl.bounded, hr.bounded);
}

-- A recursive call returns only within a budget that is not negative.
abbrev pub SubtractsWhenOk : (Prefix → Prefix → ℤ → Result PlanError (List Prefix)) → Type 0
SubtractsWhenOk rec =
    (base deny : Prefix) (budget : ℤ) (parts : List Prefix)
    → IsMasked base
    → IsMasked deny
    → rec base deny budget ≡ ok parts
    → (lt_ℕ budget 0 ≡ false) × Subtracts base deny budget parts

module _ (rec : Prefix → Prefix → ℤ → Result PlanError (List Prefix))
    (r : SubtractsWhenOk rec) where
  subtract_halves :
      (base deny : Prefix) (budget : ℤ) (parts : List Prefix)
      → IsMasked base
      → IsMasked deny
      → base.bits < bit_len base.is4
      → lt_ℕ budget 0 ≡ false
      → (do
        left_parts ← rec (lower base) deny budget
        right_parts ← rec (upper base) deny (budget -ℤ length left_parts)
        ok (left_parts ++ right_parts))
        ≡ ok parts
      → Subtracts base deny budget parts
  subtract_halves base deny budget parts mb md l b h =
      let (ls, el, h') = bind-returns (rec (lower base) deny budget) _ h in
      let (rs, er, h'') = bind-returns (rec (upper base) deny (budget -ℤ length ls)) _ h' in
      let left = r (lower base) deny budget ls (lower-IsMasked base mb l) md el in
      let right = r (upper base) deny (budget -ℤ length ls) rs (upper-IsMasked base mb l) md er in
      subst (Subtracts base deny budget) (ok-injective h'')
        (Subtracts-append base deny budget ls rs mb l b right.0 left.1 right.1)

  untouched :
      (base deny : Prefix) (budget : ℤ)
      → IsMasked base
      → overlaps base deny ≡ false
      → Subtracts base deny budget (base ∷ [])
  untouched base deny budget mb o = record {
    counts = λ x. ground (arith, disjoint_of_overlaps base deny x o);
    all_masked = (mb, tt);
    bounded = omega arith;
  }

  swallowed :
      (base deny : Prefix) (budget : ℤ)
      → (leb deny.bits base.bits && contains deny (first base)) ≡ true
      → Subtracts base deny budget []
  swallowed base deny budget c = record {
    counts = λ x. ground (arith, contains_of_first deny base x);
    all_masked = tt;
    bounded = omega arith;
  }

  overlapping :
      (base deny : Prefix) (budget : ℤ) (parts : List Prefix)
      → IsMasked base
      → IsMasked deny
      → lt_ℕ budget 0 ≡ false
      → overlaps base deny ≡ true
      → (leb deny.bits base.bits && contains deny (first base)) ≡ false
      → (do
        halves ← split_prefix base
        left_parts ← rec halves.0 deny budget
        right_parts ← rec halves.1 deny (budget -ℤ length left_parts)
        ok (left_parts ++ right_parts))
        ≡ ok parts
      → Subtracts base deny budget parts
  overlapping base deny budget parts mb md b o c h =
      let l = splittable base deny mb md o c in
      subtract_halves base deny budget parts mb md l b (rw (split_prefix_ok base mb l) at h)

  subtract_step-Subtracts : SubtractsWhenOk (subtract_step rec)
  unfolding subtract_step
  subtract_step-Subtracts base deny budget parts mb md h =
      let (b, h') = if_err-eq-ok (lt_ℕ budget 0) limit_exceeded _ h in
      (
        b,
        elim (Bool-cases (overlaps base deny)) [
          | inl o ↦ elim (Bool-cases (leb deny.bits base.bits && contains deny (first base))) [
            | inl c ↦
                subst (Subtracts base deny budget) (ok-injective (rw (o, c) at h'))
                  (swallowed base deny budget c)
            | inr c ↦ overlapping base deny budget parts mb md b o c (rw (o, c) at h')
          ]
          | inr o ↦
              subst (Subtracts base deny budget) (ok-injective (rw o at h'))
                (untouched base deny budget mb o)
        ],
      )

pub subtract_prefix-Subtracts : (fuel : ℕ) → SubtractsWhenOk (subtract_prefix fuel)
unfolding subtract_prefix
subtract_prefix-Subtracts zero base deny budget parts mb md h = cc
subtract_prefix-Subtracts (suc fuel) base deny budget parts mb md h =
    subtract_step-Subtracts (subtract_prefix fuel) (subtract_prefix-Subtracts fuel) base deny budget
      parts mb md h

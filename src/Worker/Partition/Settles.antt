-- ===== src/Worker/Partition/Settles.antt =====
-- partition.go: the recursions of `subtractPrefix` and `splitToPrefix` end, and fail only for the
-- partition limit.
use topo.Prelude.{
  ℕ, zero, suc, ◌≤◌, ◌<◌, ◌≡◌, ◌⊎◌, inl, inr, refl, ◌&&◌, List, [], ◌∷◌, ◌++◌, length, arith, leb,
  Result, ok, err, ◌>>=◌, Bool-cases, ℤ, ◌-ℤ◌, lt_ℕ,
}
use topo.Worker.Prefix.{Prefix, IsMasked, bit_len, host_bits, contains, overlaps, first}
use topo.Worker.Partition.{
  PlanError, split_prefix, subtract_step, subtract_prefix, split_to_step, split_to_prefix,
  limit_exceeded,
}
use topo.Worker.Partition.Split.{lower, upper, split_prefix_ok, lower-IsMasked, upper-IsMasked}
use topo.Worker.Partition.Subtract.{splittable}

-- A list of parts, or the error of the partition limit.
abbrev pub Settles : Result PlanError (List Prefix) → Type 0
Settles r = ((parts : List Prefix) × (r ≡ ok parts)) ⊎ (r ≡ err limit_exceeded)

both_settle :
    (a : Result PlanError (List Prefix)) (b : List Prefix → Result PlanError (List Prefix))
    → Settles a
    → ((ls : List Prefix) → Settles (b ls))
    → Settles (do left_parts ← a; right_parts ← b left_parts; ok (left_parts ++ right_parts))
both_settle a b ha hb = elim ha [
  | inl (ls, e) ↦
      rw e
        (elim (hb ls) [ inl (rs, e') ↦ rw e' (inl (ls ++ rs, refl)) | inr e' ↦ rw e' (inr refl) ])
  | inr e ↦ rw e (inr refl)
]

SubtractSettles : ℕ → Type 0
SubtractSettles fuel =
    (base deny : Prefix) (budget : ℤ)
    → IsMasked base
    → IsMasked deny
    → host_bits base < fuel
    → Settles (subtract_prefix fuel base deny budget)

halves_settle :
    (fuel : ℕ) (base deny : Prefix) (budget : ℤ)
    → SubtractSettles fuel
    → IsMasked base
    → IsMasked deny
    → base.bits < bit_len base.is4
    → host_bits base < suc fuel
    → Settles (do
      halves ← split_prefix base
      left_parts ← subtract_prefix fuel halves.0 deny budget
      right_parts ← subtract_prefix fuel halves.1 deny (budget -ℤ length left_parts)
      ok (left_parts ++ right_parts))
unfolding SubtractSettles
halves_settle fuel base deny budget r mb md l f = rw (split_prefix_ok base mb l) (
    both_settle (subtract_prefix fuel (lower base) deny budget)
      (λ ls. subtract_prefix fuel (upper base) deny (budget -ℤ length ls))
      (r (lower base) deny budget (lower-IsMasked base mb l) md (omega arith))
      (λ ls. r (upper base) deny (budget -ℤ length ls) (upper-IsMasked base mb l) md (omega arith)))

-- With more fuel than the base has host bits, `subtractPrefix` returns parts or hits the limit.
pub subtract_prefix-Settles :
    (fuel : ℕ) (base deny : Prefix) (budget : ℤ)
    → IsMasked base
    → IsMasked deny
    → host_bits base < fuel
    → Settles (subtract_prefix fuel base deny budget)
unfolding subtract_prefix subtract_step SubtractSettles
subtract_prefix-Settles zero base deny budget mb md f = absurd (omega arith)
subtract_prefix-Settles (suc fuel) base deny budget mb md f = elim (Bool-cases (lt_ℕ budget 0)) [
  | inl low ↦ rw low (inr refl)
  | inr b ↦ rw b (elim (Bool-cases (overlaps base deny)) [
    | inr o ↦ rw o (inl (base ∷ [], refl))
    | inl o ↦ rw o (elim (Bool-cases (leb deny.bits base.bits && contains deny (first base))) [
      | inl c ↦ rw c (inl ([], refl))
      | inr c ↦ rw c (
          halves_settle fuel base deny budget (subtract_prefix-Settles fuel) mb md
            (splittable base deny mb md o c) f)
    ])
  ])
]

SplitSettles : ℕ → Type 0
SplitSettles fuel =
    (prefix : Prefix) (target : ℕ) (budget : ℤ)
    → IsMasked prefix
    → target ≤ bit_len prefix.is4
    → host_bits prefix < fuel
    → Settles (split_to_prefix fuel prefix target budget)

split_halves_settle :
    (fuel : ℕ) (prefix : Prefix) (target : ℕ) (budget : ℤ)
    → SplitSettles fuel
    → IsMasked prefix
    → target ≤ bit_len prefix.is4
    → prefix.bits < bit_len prefix.is4
    → host_bits prefix < suc fuel
    → Settles (do
      halves ← split_prefix prefix
      left_parts ← split_to_prefix fuel halves.0 target budget
      right_parts ← split_to_prefix fuel halves.1 target (budget -ℤ length left_parts)
      ok (left_parts ++ right_parts))
unfolding SplitSettles
split_halves_settle fuel prefix target budget r m t l f = rw (split_prefix_ok prefix m l) (
    both_settle (split_to_prefix fuel (lower prefix) target budget)
      (λ ls. split_to_prefix fuel (upper prefix) target (budget -ℤ length ls))
      (r (lower prefix) target budget (lower-IsMasked prefix m l) t (omega arith))
      (λ ls.
        r (upper prefix) target (budget -ℤ length ls) (upper-IsMasked prefix m l) t (omega arith)))

-- The same of `splitToPrefix`, for a target length that the family has.
pub split_to_prefix-Settles :
    (fuel : ℕ) (prefix : Prefix) (target : ℕ) (budget : ℤ)
    → IsMasked prefix
    → target ≤ bit_len prefix.is4
    → host_bits prefix < fuel
    → Settles (split_to_prefix fuel prefix target budget)
unfolding split_to_prefix split_to_step SplitSettles
split_to_prefix-Settles zero prefix target budget m t f = absurd (omega arith)
split_to_prefix-Settles (suc fuel) prefix target budget m t f = elim (Bool-cases (lt_ℕ budget 1)) [
  | inl low ↦ rw low (inr refl)
  | inr b ↦ rw b (elim (Bool-cases (leb target prefix.bits)) [
    | inl done ↦ rw done (inl (prefix ∷ [], refl))
    | inr more ↦ rw more (
        split_halves_settle fuel prefix target budget (split_to_prefix-Settles fuel) m t
          (ground arith) f)
  ])
]

-- ===== src/Worker/Plan/Ends.antt =====
-- partition.go: planning ends for every scope, with partitions or with an error that refuses the
-- scope or its size.
use topo.Prelude.{
  ℕ, suc, ◌≤◌, ◌≡◌, inl, inr, refl, Bool, true, false, String, Option-cases, List, [], ◌∷◌, ◌++◌,
  length, All, arith, ltb, Bool-cases, Result, ok, err, ◌>>=◌, refuse_if, first_refusal, pos, ◌-ℤ◌,
  to_ℕ, sort_slice,
}
use topo.Worker.Prefix.{Prefix, IsMasked, host_bits, masked}
use topo.Worker.Partition.{
  PlanError, out_of_fuel, cannot_split, limit_exceeded, too_many, too_many_after_exclusions,
  subtract_prefix, split_to_prefix, invalid_cidr, invalid_exclusion,
}
use topo.Worker.Partition.Settles.{Settles, subtract_prefix-Settles, split_to_prefix-Settles}
use topo.Worker.Plan.{
  PrefixText, TargetScope, check_scope, scope_checks, parse_prefixes, exclude_one, exclude_all,
  spread, remove_covered, build_plan, plan_prefixes, plan_target_partitions, number_from,
  address_less, maximum_of,
}
use topo.Worker.Plan.Covered.{remove_covered-IsMasked}
use topo.Worker.Plan.Excluded.{exclude_one-ExcludesOne, exclude_all-ExcludesAll, outside}
use topo.Worker.Plan.Spread.{target_of, target_fits}
use topo.Worker.Plan.Selected.{parse_prefixes-Parsed, check_scope_fits}

-- The errors that the planner means to give; the two others stand for a defect.
abbrev pub is_refusal : PlanError → Bool
is_refusal out_of_fuel = false
is_refusal cannot_split = false
is_refusal _ = true

-- A value, or a refusal.
pub data Ends {A : Type 0} (r : Result PlanError A) : Type 0 where
  returns : (a : A) → r ≡ ok a → Ends r
  refuses : (e : PlanError) → r ≡ err e → is_refusal e ≡ true → Ends r

Ends-bind :
    {A B : Type 0} (m : Result PlanError A) (f : A → Result PlanError B)
    → Ends m
    → ((a : A) → m ≡ ok a → Ends (f a))
    → Ends (m >>= f)
Ends-bind m f (returns a e) k = rw e (k a e)
Ends-bind m f (refuses x e r) k = rw e (refuses x refl r)

Ends-refuse_if : (b : Bool) (e : PlanError) → is_refusal e ≡ true → Ends (refuse_if b e)
Ends-refuse_if true e r = refuses e refl r
Ends-refuse_if false e r = returns tt refl

first_refusal-Ends :
    (checks : List (Bool × PlanError))
    → All (λ c. is_refusal c.1 ≡ true) checks
    → Ends (first_refusal checks)
first_refusal-Ends [] r = returns tt refl
first_refusal-Ends ((true, e) ∷ checks) r = refuses e refl r.0
first_refusal-Ends ((false, e) ∷ checks) r = first_refusal-Ends checks r.1

Settles-Ends : (r : Result PlanError (List Prefix)) → Settles r → Ends r
Settles-Ends r (inl (ps, e)) = returns ps e
Settles-Ends r (inr e) = refuses limit_exceeded e refl

exclude_one-Ends :
    (maximum : ℕ) (deny : Prefix) (candidates next : List Prefix)
    → IsMasked deny
    → All IsMasked candidates
    → Ends (exclude_one maximum deny candidates next)
unfolding exclude_one
exclude_one-Ends maximum deny [] next md m = returns next refl
exclude_one-Ends maximum deny (p ∷ ps) next md m = elim (Bool-cases (outside p deny)) [
  | inl o ↦ rw (o, exclude_one) (exclude_one-Ends maximum deny ps (next ++ p ∷ []) md m.1)
  | inr o ↦
      rw (o, exclude_one)
        (Ends-bind (subtract_prefix (suc (host_bits p)) p deny (pos maximum -ℤ length next)) _
          (Settles-Ends _
            (subtract_prefix-Settles (suc (host_bits p)) p deny _ m.0 md (omega arith)))
          (λ parts e.
            Ends-bind (refuse_if (ltb maximum (length (next ++ parts))) too_many_after_exclusions) _
              (Ends-refuse_if _ too_many_after_exclusions refl)
              (λ u e'. exclude_one-Ends maximum deny ps (next ++ parts) md m.1)))
]

exclude_all-Ends :
    (maximum : ℕ) (denies allowed : List Prefix)
    → All IsMasked denies
    → All IsMasked allowed
    → Ends (exclude_all maximum denies allowed)
unfolding exclude_all
exclude_all-Ends maximum [] allowed md m = returns allowed refl
exclude_all-Ends maximum (deny ∷ denies) allowed md m =
    Ends-bind (exclude_one maximum deny allowed []) _
      (exclude_one-Ends maximum deny allowed [] md.0 m)
      (λ next e.
        exclude_all-Ends maximum denies next md.1
          ((exclude_one-ExcludesOne maximum deny allowed [] next md.0 m e).all_masked tt))

spread-Ends :
    (maximum v4 v6 : ℕ) (prefixes planned : List Prefix)
    → v4 ≤ 32
    → v6 ≤ 128
    → All IsMasked prefixes
    → Ends (spread maximum v4 v6 prefixes planned)
unfolding spread
spread-Ends maximum v4 v6 [] planned f4 f6 m = returns planned refl
spread-Ends maximum v4 v6 (p ∷ ps) planned f4 f6 m =
    Ends-bind
      (split_to_prefix (suc (host_bits p)) p (target_of v4 v6 p) (pos maximum -ℤ length planned)) _
      (Settles-Ends _ (
        split_to_prefix-Settles (suc (host_bits p)) p _ _ m.0 (target_fits v4 v6 p f4 f6)
          (omega arith)))
      (λ parts e.
        Ends-bind (refuse_if (ltb maximum (length (planned ++ parts))) too_many) _
          (Ends-refuse_if _ too_many refl)
          (λ u e'. spread-Ends maximum v4 v6 ps (planned ++ parts) f4 f6 m.1))

check_scope-Ends : (scope : TargetScope) → Ends (check_scope scope)
unfolding check_scope
check_scope-Ends scope =
    first_refusal-Ends (scope_checks scope) (refl, (refl, (refl, (refl, (refl, tt)))))

module _ (text : PrefixText) where
  parse_prefixes-Ends :
      (e : PlanError) (values : List String)
      → is_refusal e ≡ true
      → Ends (parse_prefixes text e values)
  unfolding parse_prefixes
  parse_prefixes-Ends e [] r = returns [] refl
  parse_prefixes-Ends e (v ∷ vs) r = elim (Option-cases (text.parse_prefix v)) [
    | inl bad ↦ rw (bad, parse_prefixes) (refuses e refl r)
    | inr (p, good) ↦
        rw (good, parse_prefixes)
          (Ends-bind (parse_prefixes text e vs) _ (parse_prefixes-Ends e vs r)
            (λ ps e'. returns (masked p ∷ ps) refl))
  ]

  build_plan-Ends :
      (maximum v4 v6 : ℕ) (scope : TargetScope)
      → v4 ≤ 32
      → v6 ≤ 128
      → Ends (build_plan text maximum v4 v6 scope)
  unfolding build_plan
  build_plan-Ends maximum v4 v6 scope f4 f6 =
      Ends-bind (parse_prefixes text invalid_cidr scope.cidrs) _ (parse_prefixes-Ends _ _ refl)
        λ included ei.
          Ends-bind (parse_prefixes text invalid_exclusion scope.exclusions) _
            (parse_prefixes-Ends _ _ refl)
            λ excluded ee.
              let mi =
                remove_covered-IsMasked included
                  (parse_prefixes-Parsed text invalid_cidr scope.cidrs included ei).all_masked in
              let me =
                remove_covered-IsMasked excluded
                  (parse_prefixes-Parsed text invalid_exclusion scope.exclusions excluded
                    ee).all_masked in
              Ends-bind (exclude_all maximum (remove_covered excluded) (remove_covered included)) _
                (exclude_all-Ends maximum _ _ me mi)
                λ allowed ea.
                  Ends-bind (spread maximum v4 v6 allowed []) _
                    (spread-Ends maximum v4 v6 allowed [] f4 f6
                      (exclude_all-ExcludesAll maximum _ _ allowed me mi ea).all_masked)
                    (λ planned ep. returns (sort_slice address_less planned) refl)

  plan_prefixes-Ends : (scope : TargetScope) → Ends (plan_prefixes text scope)
  unfolding plan_prefixes
  plan_prefixes-Ends scope = Ends-bind (check_scope scope) _ (check_scope-Ends scope) λ u e.
      let fits = check_scope_fits scope e in
      build_plan-Ends (to_ℕ (maximum_of scope)) _ _ scope fits.0 fits.1

  -- For every scope `PlanTargetPartitions` returns partitions or one of the errors that refuse the
  -- scope or its size: its recursions end, and it never fails to split a prefix.
  pub plan-Ends : (scope : TargetScope) → Ends (plan_target_partitions text scope)
  unfolding plan_target_partitions
  plan-Ends scope =
      Ends-bind (plan_prefixes text scope) _ (plan_prefixes-Ends scope)
        (λ planned e. returns (number_from text scope (length planned) 0 planned) refl)

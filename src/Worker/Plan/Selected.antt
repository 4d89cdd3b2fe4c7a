-- ===== src/Worker/Plan/Selected.antt =====
-- partition.go: what a whole plan selects.

use topo.Prelude.{
  ◌+◌, ◌≤◌, ◌≡◌, refl, subst, Bool, false, not, ◌&&◌, String, none, some, List, [], ◌∷◌, length,
  any, All, to_count, count-sort_slice, length-sort_slice, All-sort_slice, sort_slice,
  sort_slice-Sorted, Sorted, arith, Result, ok, err, bind-returns, ok-injective, to_ℕ, Option-cases,
  any-count, inl, inr,
}
use topo.Worker.Prefix.{Addr, Prefix, IsMasked, contains}
use topo.Worker.Prefix.Laws.{masked_is_IsMasked, contains-masked}
use topo.Worker.Partition.{PlanError, invalid_cidr, invalid_exclusion}
use topo.Worker.Partition.Subtract.{count_at}
use topo.Worker.Plan.{
  PrefixText, TargetScope, parse_prefixes, plan_prefixes, remove_covered, exclude_all, spread,
  address_less, check_scope, build_plan, v4_prefix_of, v6_prefix_of, maximum_of,
}
use topo.Worker.Plan.Order.{address_less-IsLess}
use topo.Worker.Plan.Covered.{any_contains, remove_covered-count, remove_covered-IsMasked}
use topo.Worker.Plan.Excluded.{exclude_all-ExcludesAll, ExcludesAll}
use topo.Worker.Plan.Spread.{spread-Spreads, IsLong}

err_ne_ok : {A : Type 0} {a : A} {e : PlanError} → ◌≡◌ {A = Result PlanError A} (err e) (ok a) → ⊥
err_ne_ok h = cc

-- A scope that passes the checks has target lengths within the families.
pub check_scope_fits :
    (scope : TargetScope) {u : Unit {0}}
    → check_scope scope ≡ ok u
    → (to_ℕ (v4_prefix_of scope) ≤ 32) × (to_ℕ (v6_prefix_of scope) ≤ 128)
unfolding check_scope
check_scope_fits scope h = ground arith

module _ (text : PrefixText) where
  -- Whether the CIDR text names a prefix that contains the address.
  abbrev pub cidr_contains : Addr → String → Bool
  cidr_contains x s = elim (text.parse_prefix s) [ none ↦ false | some p ↦ contains p x ]

  -- Whether one of the CIDR texts does.
  abbrev pub any_cidr_contains : Addr → List String → Bool
  any_cidr_contains x = any (cidr_contains x)

  -- Whether a scope selects an address: a CIDR contains it, and no exclusion does.
  abbrev pub selects : TargetScope → Addr → Bool
  selects scope x = any_cidr_contains x scope.cidrs && not (any_cidr_contains x scope.exclusions)

  pub record Parsed (values : List String) (prefixes : List Prefix) : Type 0 where
    pub found : (x : Addr) → any_contains x prefixes ≡ any_cidr_contains x values
    pub all_masked : All IsMasked prefixes

  pub parse_prefixes-Parsed :
      (e : PlanError) (values : List String) (prefixes : List Prefix)
      → parse_prefixes text e values ≡ ok prefixes
      → Parsed values prefixes
  unfolding parse_prefixes
  parse_prefixes-Parsed e [] prefixes h =
      subst (Parsed []) (ok-injective h) (record { found = λ x. refl; all_masked = tt })
  parse_prefixes-Parsed e (v ∷ vs) prefixes h = elim (Option-cases (text.parse_prefix v)) [
    | inl bad ↦ absurd (err_ne_ok (rw (bad, parse_prefixes) at h))
    | inr (p, good) ↦
        let (ps, e', h') =
          bind-returns (parse_prefixes text e vs) _ (rw (good, parse_prefixes) at h) in
        let rest = parse_prefixes-Parsed e vs ps e' in
        subst (Parsed (v ∷ vs)) (ok-injective h') (record {
          found = λ x. ground (arith, good, contains-masked p x, rest.found x);
          all_masked = (masked_is_IsMasked p (text.parse_fits v p good), rest.all_masked);
        })
  ]

  -- What the plan's prefixes are, for the scope that they were planned for.
  pub record Plans (scope : TargetScope) (planned : List Prefix) : Type 0 where
    pub counts : (x : Addr) → count_at x planned ≡ to_count (selects scope x)
    pub sorted : Sorted address_less planned
    pub bounded : length planned ≤ to_ℕ (maximum_of scope)
    pub all_long : All (IsLong (to_ℕ (v4_prefix_of scope)) (to_ℕ (v6_prefix_of scope))) planned

  planned_counts :
      (scope : TargetScope) (included excluded allowed planned : List Prefix)
      → Parsed scope.cidrs included
      → Parsed scope.exclusions excluded
      → ExcludesAll (remove_covered excluded) (remove_covered included) allowed
      → ((x : Addr) → count_at x planned ≡ count_at x [] + count_at x allowed)
      → (x : Addr) → count_at x (sort_slice address_less planned) ≡ to_count (selects scope x)
  planned_counts scope included excluded allowed planned pi pe ea sp x = ground (
    arith,
    count-sort_slice address_less (λ p. contains p x) planned,
    sp x,
    ea.counts x,
    remove_covered-count x included,
    any-count (λ p. contains p x) (remove_covered excluded),
    remove_covered-count x excluded,
    pi.found x,
    pe.found x,
  )

  build_plan-Plans :
      (scope : TargetScope) (planned : List Prefix)
      → to_ℕ (v4_prefix_of scope) ≤ 32
      → to_ℕ (v6_prefix_of scope) ≤ 128
      → build_plan text
          (to_ℕ (maximum_of scope))
          (to_ℕ (v4_prefix_of scope))
          (to_ℕ (v6_prefix_of scope))
          scope
        ≡ ok planned
      → Plans scope planned
  unfolding build_plan
  build_plan-Plans scope planned f4 f6 h =
      let v4 = to_ℕ (v4_prefix_of scope) in
      let v6 = to_ℕ (v6_prefix_of scope) in
      let limit = to_ℕ (maximum_of scope) in
      let (included, e6, h6) = bind-returns (parse_prefixes text invalid_cidr scope.cidrs) _ h in
      let (excluded, e7, h7) =
        bind-returns (parse_prefixes text invalid_exclusion scope.exclusions) _ h6 in
      let (allowed, e8, h8) =
        bind-returns (exclude_all limit (remove_covered excluded) (remove_covered included)) _ h7 in
      let (parts, e9, h9) = bind-returns (spread limit v4 v6 allowed []) _ h8 in
      let pi = parse_prefixes-Parsed invalid_cidr scope.cidrs included e6 in
      let pe = parse_prefixes-Parsed invalid_exclusion scope.exclusions excluded e7 in
      let ea =
        exclude_all-ExcludesAll limit (remove_covered excluded) (remove_covered included) allowed
          (remove_covered-IsMasked excluded pe.all_masked)
          (remove_covered-IsMasked included pi.all_masked) e8 in
      let sp = spread-Spreads limit v4 v6 allowed [] parts f4 f6 ea.all_masked e9 in
      subst (Plans scope) (ok-injective h9) (record {
        counts = planned_counts scope included excluded allowed parts pi pe ea sp.counts;
        sorted = sort_slice-Sorted address_less address_less-IsLess parts;
        bounded = rw (length-sort_slice address_less parts) (sp.bounded (omega arith));
        all_long = All-sort_slice address_less (IsLong v4 v6) parts (sp.all_long tt);
      })

  pub plan_prefixes-Plans :
      (scope : TargetScope) (planned : List Prefix)
      → plan_prefixes text scope ≡ ok planned
      → Plans scope planned
  unfolding plan_prefixes
  plan_prefixes-Plans scope planned h =
      let (done, e, h') = bind-returns (check_scope scope) _ h in
      let fits = check_scope_fits scope e in build_plan-Plans scope planned fits.0 fits.1 h'

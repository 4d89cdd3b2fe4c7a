-- ===== src/Worker/Plan/Partitions.antt =====
-- partition.go: the numbered partitions that `PlanTargetPartitions` returns.
use topo.Prelude.{
  ℕ, zero, suc, ◌+◌, ◌≤◌, ◌≡◌, refl, ap, ◌∙◌, subst, Bool, List, [], ◌∷◌, length, All, map, count,
  to_count, arith, ok, bind-returns, ok-injective, to_ℕ,
}
use topo.Worker.Prefix.{Addr, Prefix, IsMasked, contains, masked}
use topo.Worker.Prefix.Laws.{masked-IsMasked}
use topo.Worker.Partition.Subtract.{count_at}
use topo.Worker.Plan.{
  PrefixText, TargetScope, TargetPartition, plan_prefixes, number_from, plan_target_partitions,
  maximum_of,
}
use topo.Worker.Plan.Selected.{Plans, plan_prefixes-Plans, selects, any_cidr_contains}
use topo.Worker.Plan.Spread.{IsLong}

-- The numbers from `index` on.
abbrev pub count_up : ℕ → ℕ → List ℕ
count_up index zero = []
count_up index (suc n) = index ∷ count_up (index + 1) n

module _ (text : PrefixText) where
  -- Whether a CIDR of the partition contains the address.
  abbrev pub part_contains : Addr → TargetPartition → Bool
  part_contains x part = any_cidr_contains text x part.cidrs

  cidr_of_prefix :
      (p : Prefix) (x : Addr)
      → IsMasked p
      → any_cidr_contains text x (text.format_prefix (masked p) ∷ []) ≡ contains p x
  cidr_of_prefix p x m = rw (masked-IsMasked p m) (ground (arith, text.parse_format p m))

  number_from-count :
      (v4 v6 : ℕ) (scope : TargetScope) (n index : ℕ) (x : Addr) (ps : List Prefix)
      → All (IsLong v4 v6) ps
      → count (part_contains x) (number_from text scope n index ps) ≡ count_at x ps
  unfolding number_from
  number_from-count v4 v6 scope n index x [] m = refl
  number_from-count v4 v6 scope n index x (p ∷ ps) m =
      ground (arith, cidr_of_prefix p x m.0.0, number_from-count v4 v6 scope n (index + 1) x ps m.1)

  number_from-ordinals :
      (scope : TargetScope) (n index : ℕ) (ps : List Prefix)
      → map (λ part. part.ordinal) (number_from text scope n index ps) ≡ count_up index (length ps)
  unfolding number_from
  number_from-ordinals scope n index [] = refl
  number_from-ordinals scope n index (p ∷ ps) =
      ap (λ l. index ∷ l) (number_from-ordinals scope n (index + 1) ps)

  number_from-totals :
      (scope : TargetScope) (n index : ℕ) (ps : List Prefix)
      → All (λ part. part.count ≡ n) (number_from text scope n index ps)
  unfolding number_from
  number_from-totals scope n index [] = tt
  number_from-totals scope n index (p ∷ ps) = (refl, number_from-totals scope n (index + 1) ps)

  pub length-number_from :
      (scope : TargetScope) (n index : ℕ) (ps : List Prefix)
      → length (number_from text scope n index ps) ≡ length ps
  unfolding number_from
  length-number_from scope n index [] = refl
  length-number_from scope n index (p ∷ ps) = ap suc (length-number_from scope n (index + 1) ps)

  -- The prefixes behind the partitions.
  pub record Numbers (scope : TargetScope) (parts : List TargetPartition) : Type 0 where
    pub planned : List Prefix
    pub plans : Plans text scope planned
    pub numbered : number_from text scope (length planned) 0 planned ≡ parts

  pub plan-Numbers :
      (scope : TargetScope) (parts : List TargetPartition)
      → plan_target_partitions text scope ≡ ok parts
      → Numbers scope parts
  unfolding plan_target_partitions
  plan-Numbers scope parts h =
      let (planned, e, h') = bind-returns (plan_prefixes text scope) _ h in
      record {
        planned = planned;
        plans = plan_prefixes-Plans text scope planned e;
        numbered = ok-injective h';
      }

  -- When `PlanTargetPartitions` returns partitions, every address that the scope selects (one of
  -- its CIDRs contains it, and none of its exclusions does) is in exactly one partition, and every
  -- other address is in none.
  pub plan-selects_once :
      (scope : TargetScope) (parts : List TargetPartition)
      → plan_target_partitions text scope ≡ ok parts
      → (x : Addr) → count (part_contains x) parts ≡ to_count (selects text scope x)
  plan-selects_once scope parts h x =
      let n = plan-Numbers scope parts h in
      subst (λ ps. count (part_contains x) ps ≡ to_count (selects text scope x)) n.numbered
        (number_from-count _ _ scope (length n.planned) 0 x n.planned n.plans.all_long
          ∙ n.plans.counts x)

  -- When `PlanTargetPartitions` returns partitions, there are no more than the scope's maximum
  -- (or the default, 100000), their ordinals are 0, 1, 2 and so on, and each carries their number.
  pub plan-numbered :
      (scope : TargetScope) (parts : List TargetPartition)
      → plan_target_partitions text scope ≡ ok parts
      → (length parts ≤ to_ℕ (maximum_of scope))
        × (map (λ part. part.ordinal) parts ≡ count_up 0 (length parts))
        × All (λ part. part.count ≡ length parts) parts
  plan-numbered scope parts h =
      let n = plan-Numbers scope parts h in
      let size = length-number_from scope (length n.planned) 0 n.planned in
      subst
        (λ ps.
          (length ps ≤ to_ℕ (maximum_of scope))
          × (map (λ part. part.ordinal) ps ≡ count_up 0 (length ps))
          × All (λ part. part.count ≡ length ps) ps)
        n.numbered
        (rw size (
          n.plans.bounded,
          number_from-ordinals scope (length n.planned) 0 n.planned,
          number_from-totals scope (length n.planned) 0 n.planned,
        ))

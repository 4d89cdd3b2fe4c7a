-- ===== src/Worker/Plan/Accepted.antt =====
-- partition.go and client.go: the partitions of a plan are those that a worker accepts in a task.
use topo.Prelude.{
  ℕ, ◌+◌, ◌≤◌, ◌≡◌, subst, true, String, eq_iff, List, [], ◌∷◌, length, All, arith, ok,
  bind-returns, ℤ, to_ℕ,
}
use topo.Worker.Prefix.{Prefix, IsMasked, masked}
use topo.Worker.Prefix.Laws.{masked-IsMasked}
use topo.Worker.Policy.{is_sha256_hex, same_prefix}
use topo.Worker.Task.{is_canonical, validate_partition}
use topo.Worker.Plan.{
  PrefixText, TargetScope, TargetPartition, plan_prefixes, number_from, plan_target_partitions,
  maximum_of, check_scope, scope_checks, default_max_partitions,
}
use topo.Worker.Plan.Partitions.{plan-Numbers}
use topo.Worker.Plan.Spread.{IsLong}

same_prefix_refl : (p : Prefix) → same_prefix p p ≡ true
same_prefix_refl p = ground arith

check_scope-maximum :
    (scope : TargetScope) {u : Unit {0}}
    → check_scope scope ≡ ok u
    → to_ℕ (maximum_of scope) ≤ default_max_partitions
unfolding check_scope scope_checks
check_scope-maximum scope e = ground arith

module _ (text : PrefixText) where
  -- A planned prefix is written in the canonical way.
  format-canonical :
      (p : Prefix) → IsMasked p → is_canonical text (text.format_prefix (masked p)) ≡ true
  unfolding is_canonical
  format-canonical p m = rw (masked-IsMasked p m) (
      rw (text.parse_format p m, is_canonical)
        (rw (masked-IsMasked p m) (
          ground
            (arith, same_prefix_refl p, eq_iff (text.format_prefix p) (text.format_prefix p)))))

  -- The keys are SHA-256 hashes in hexadecimal.
  abbrev pub HexKeys : Type 0
  HexKeys =
      (id : String) (revision : ℤ) (cidr : String)
      → is_sha256_hex (text.partition_key id revision cidr) ≡ true

  number_from-validate_partition :
      (v4 v6 : ℕ) (scope : TargetScope) (n index : ℕ) (ps : List Prefix)
      → HexKeys
      → All (IsLong v4 v6) ps
      → index + length ps ≤ n
      → n ≤ default_max_partitions
      → All (λ part. validate_partition text part ≡ true) (number_from text scope n index ps)
  unfolding number_from validate_partition
  number_from-validate_partition v4 v6 scope n index [] keys long small bound = tt
  number_from-validate_partition v4 v6 scope n index (p ∷ ps) keys long small bound = (
    ground (
      arith,
      format-canonical p long.0.0,
      keys scope.scope_id scope.revision (text.format_prefix (masked p)),
    ),
    number_from-validate_partition v4 v6 scope n (index + 1) ps keys long.1 (ground arith) bound,
  )

  plan_prefixes-maximum :
      (scope : TargetScope) (planned : List Prefix)
      → plan_prefixes text scope ≡ ok planned
      → to_ℕ (maximum_of scope) ≤ default_max_partitions
  unfolding plan_prefixes check_scope scope_checks
  plan_prefixes-maximum scope planned e =
      let (u, checked, rest) = bind-returns (check_scope scope) _ e in
      check_scope-maximum scope checked

  -- When `PlanTargetPartitions` returns partitions, a worker accepts each of them in a task, where
  -- the keys are 64 hexadecimal digits.
  pub plan-validate_partition :
      (scope : TargetScope) (parts : List TargetPartition)
      → plan_target_partitions text scope ≡ ok parts
      → HexKeys
      → All (λ part. validate_partition text part ≡ true) parts
  unfolding plan_target_partitions
  plan-validate_partition scope parts e keys =
      let n = plan-Numbers text scope parts e in
      let (planned, planned_ok, rest) = bind-returns (plan_prefixes text scope) _ e in
      subst (All (λ part. validate_partition text part ≡ true)) n.numbered (
        number_from-validate_partition _ _ scope (length n.planned) 0 n.planned keys
          n.plans.all_long (ground arith)
          (ground (arith, n.plans.bounded, plan_prefixes-maximum scope planned planned_ok)))

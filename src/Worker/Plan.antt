-- ===== src/Worker/Plan.antt =====
-- internal/worker/partition.go: `PlanTargetPartitions`, from a scope to its numbered partitions.
-- The text form of prefixes and the SHA-256 keys are a parameter, `PrefixText`.
pub mod Order
pub mod Covered
pub mod Excluded
pub mod Spread
pub mod Selected
pub mod Accepted
pub mod Partitions
pub mod Ends
pub mod Examples
use topo.Prelude.{
  ℕ, zero, suc, ◌+◌, ◌-◌, ◌≤◌, ◌≡◌, Bool, true, false, ◌&&◌, ◌||◌, not, String, Option, none, some,
  List, [], ◌∷◌, ◌++◌, length, any, ltb, leb, ◌==◌, if◌then◌else◌, ℤ, pos, ◌-ℤ◌, lt_ℕ, gt_ℕ,
  is_zero, to_ℕ, Result, ok, err, ◌>>=◌, ◌>>◌, refuse_if, first_refusal, sort_slice,
}
use topo.Worker.Ids.{safe_id}
use topo.Worker.Prefix.{Prefix, IsMasked, bit_len, host_bits, contains, first, overlaps, masked}
use topo.Worker.Partition.{
  PlanError, invalid_scope_id, invalid_revision, invalid_cidr_count, invalid_prefix_bits,
  invalid_maximum, invalid_cidr, invalid_exclusion, too_many_after_exclusions, too_many,
  subtract_prefix, split_to_prefix,
}

-- What net/netip, crypto/sha256 and fmt supply: `netip.ParsePrefix` (`none` for an error),
-- `Prefix.String`, and the key of a partition from the scope's ID, its revision and the prefix.
pub record PrefixText : Type 0 where
  pub parse_prefix : String → Option Prefix
  pub format_prefix : Prefix → String
  pub partition_key : String → ℤ → String → String
  -- A parsed prefix has at most the bits of its family.
  pub parse_fits : (s : String) (p : Prefix) → parse_prefix s ≡ some p → p.bits ≤ bit_len p.is4
  -- A masked prefix is parsed back from its text.
  pub parse_format : (p : Prefix) → IsMasked p → parse_prefix (format_prefix p) ≡ some p

abbrev pub max_scope_cidrs : ℕ
max_scope_cidrs = 4096

abbrev pub default_max_partitions : ℕ
default_max_partitions = 100000

pub record TargetScope : Type 0 where
  pub scope_id : String
  pub revision : ℤ
  pub cidrs : List String
  pub exclusions : List String
  pub ipv4_partition_prefix : ℤ
  pub ipv6_partition_prefix : ℤ
  pub max_partitions : ℤ

pub record TargetPartition : Type 0 where
  pub key : String
  pub ordinal : ℕ
  pub count : ℕ
  pub cidrs : List String

-- The order of `removeCovered`: family, then length, then address.
pub covered_less : Prefix → Prefix → Bool
covered_less p q =
    if not (bit_len p.is4 == bit_len q.is4)
    then ltb (bit_len p.is4) (bit_len q.is4)
    else if not (p.bits == q.bits)
    then ltb p.bits q.bits
    else ltb p.addr q.addr

-- The order of `sortPrefixes`: family, then address, then length.
pub address_less : Prefix → Prefix → Bool
address_less p q =
    if not (bit_len p.is4 == bit_len q.is4)
    then ltb (bit_len p.is4) (bit_len q.is4)
    else if not (p.addr == q.addr)
    then ltb p.addr q.addr
    else ltb p.bits q.bits

-- The inner loop of `removeCovered`, over the prefixes kept so far.
pub covered_by : Prefix → List Prefix → Bool
covered_by prefix =
    any (λ existing. bit_len existing.is4 == bit_len prefix.is4 && contains existing (first prefix))

pub keep_uncovered : List Prefix → List Prefix → List Prefix
keep_uncovered [] result = result
keep_uncovered (prefix ∷ rest) result =
    keep_uncovered rest (if covered_by prefix result then result else result ++ prefix ∷ [])

unfoldable pub remove_covered : List Prefix → List Prefix
unfolding keep_uncovered covered_by covered_less
remove_covered prefixes = keep_uncovered (sort_slice covered_less prefixes) []

-- The loop over the candidates for one exclusion, with the prefixes built so far in `next`.
pub exclude_one : ℕ → Prefix → List Prefix → List Prefix → Result PlanError (List Prefix)
exclude_one maximum deny [] next = ok next
exclude_one maximum deny (candidate ∷ rest) next =
    elim (not (bit_len candidate.is4 == bit_len deny.is4) || not (overlaps candidate deny)) [
      | true ↦ exclude_one maximum deny rest (next ++ candidate ∷ [])
      | false ↦ do
        parts ←
            subtract_prefix (suc (host_bits candidate)) candidate deny (pos maximum -ℤ length next)
        refuse_if (ltb maximum (length (next ++ parts))) too_many_after_exclusions
        exclude_one maximum deny rest (next ++ parts)
    ]

-- The loop over the exclusions.
pub exclude_all : ℕ → List Prefix → List Prefix → Result PlanError (List Prefix)
exclude_all maximum [] allowed = ok allowed
exclude_all maximum (deny ∷ rest) allowed = do
  next ← exclude_one maximum deny allowed []
  exclude_all maximum rest next

-- The loop that splits what is allowed into partitions.
pub spread : ℕ → ℕ → ℕ → List Prefix → List Prefix → Result PlanError (List Prefix)
spread maximum v4_prefix v6_prefix [] planned = ok planned
spread maximum v4_prefix v6_prefix (prefix ∷ rest) planned = do
  let target_bits = if prefix.is4 then v4_prefix else v6_prefix
  parts ←
      split_to_prefix (suc (host_bits prefix)) prefix target_bits (pos maximum -ℤ length planned)
  refuse_if (ltb maximum (length (planned ++ parts))) too_many
  spread maximum v4_prefix v6_prefix rest (planned ++ parts)

-- The default in place of a zero.
abbrev or_default : ℤ → ℕ → ℤ
or_default z d = if is_zero z then pos d else z

-- `scope.IPv4PartitionPrefix`, `scope.IPv6PartitionPrefix` and `scope.MaxPartitions`, or their
-- defaults.
abbrev pub v4_prefix_of : TargetScope → ℤ
v4_prefix_of scope = or_default scope.ipv4_partition_prefix 24

abbrev pub v6_prefix_of : TargetScope → ℤ
v6_prefix_of scope = or_default scope.ipv6_partition_prefix 64

abbrev pub maximum_of : TargetScope → ℤ
maximum_of scope = or_default scope.max_partitions default_max_partitions

-- The checks on the scope that come before its prefixes are parsed.
pub scope_checks : TargetScope → List (Bool × PlanError)
scope_checks scope =
    (not (safe_id scope.scope_id), invalid_scope_id)
    ∷ (lt_ℕ scope.revision 1 || gt_ℕ scope.revision 1000000, invalid_revision)
    ∷ (
      length scope.cidrs == 0
          || ltb max_scope_cidrs (length scope.cidrs)
          || ltb max_scope_cidrs (length scope.exclusions),
      invalid_cidr_count,
    )
    ∷ (
      lt_ℕ (v4_prefix_of scope) 8
          || gt_ℕ (v4_prefix_of scope) 32
          || lt_ℕ (v6_prefix_of scope) 32
          || gt_ℕ (v6_prefix_of scope) 128,
      invalid_prefix_bits,
    )
    ∷ (lt_ℕ (maximum_of scope) 1 || gt_ℕ (maximum_of scope) default_max_partitions, invalid_maximum)
    ∷ []

pub check_scope : TargetScope → Result PlanError (Unit {0})
unfolding scope_checks
check_scope scope = first_refusal (scope_checks scope)

module _ (text : PrefixText) where
  -- `parsePrefixes`; the caller says for which list it failed.
  pub parse_prefixes : PlanError → List String → Result PlanError (List Prefix)
  parse_prefixes e [] = ok []
  parse_prefixes e (value ∷ values) = elim (text.parse_prefix value) [
    | none ↦ err e
    | some prefix ↦ do prefixes ← parse_prefixes e values; ok (masked prefix ∷ prefixes)
  ]

  -- The prefixes of the plan, in their final order, within the limits that were checked.
  pub build_plan : ℕ → ℕ → ℕ → TargetScope → Result PlanError (List Prefix)
  build_plan maximum v4_prefix v6_prefix scope = do
    included ← parse_prefixes invalid_cidr scope.cidrs
    excluded ← parse_prefixes invalid_exclusion scope.exclusions
    allowed ← exclude_all maximum (remove_covered excluded) (remove_covered included)
    planned ← spread maximum v4_prefix v6_prefix allowed []
    ok (sort_slice address_less planned)

  pub plan_prefixes : TargetScope → Result PlanError (List Prefix)
  plan_prefixes scope = do
    check_scope scope
    build_plan (to_ℕ (maximum_of scope)) (to_ℕ (v4_prefix_of scope)) (to_ℕ (v6_prefix_of scope))
        scope

  -- The partitions from an index on, of `count` in all.
  pub number_from : TargetScope → ℕ → ℕ → List Prefix → List TargetPartition
  number_from scope count index [] = []
  number_from scope count index (prefix ∷ rest) =
      let canonical = text.format_prefix (masked prefix) in
      record {
        key = text.partition_key scope.scope_id scope.revision canonical;
        ordinal = index;
        count = count;
        cidrs = canonical ∷ [];
      }
      ∷ number_from scope count (index + 1) rest

  pub plan_target_partitions : TargetScope → Result PlanError (List TargetPartition)
  plan_target_partitions scope = do
    planned ← plan_prefixes scope
    ok (number_from scope (length planned) 0 planned)

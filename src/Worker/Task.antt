-- ===== src/Worker/Task.antt =====
-- internal/worker/contract.go and client.go: a task, and the checks of a claimed one.
use topo.Prelude.{
  ℕ, Bool, true, false, not, ◌&&◌, ◌||◌, ◌==◌, String, str_eq, Option, none, some, List, [], ◌∷◌,
  any, length, leb, ltb, ℤ, lt_ℕ, if◌then◌else◌,
}
use topo.Worker.Ids.{safe_id}
use topo.Worker.Prefix.{Prefix, masked}
use topo.Worker.Plan.{TargetPartition, PrefixText, default_max_partitions}
use topo.Worker.Policy.{
  Operation, local_v1, ssh_linux_v1, winrm_windows_v1, is_sha256_hex, same_prefix,
}

abbrev pub max_partition_cidrs : ℕ
max_partition_cidrs = 64

abbrev pub max_ssh_targets : ℕ
max_ssh_targets = 1024

-- Task: `none` for an operation that is not compiled in, and times in nanoseconds after the zero
-- time, which is 0.
pub record Task : Type 0 where
  pub task_id : String
  pub run_id : String
  pub attempt_id : String
  pub lease_token : String
  pub lease_expires_at : ℕ
  pub operation : Option Operation
  pub profile_id : String
  pub profile_revision : ℤ
  pub credential_binding_id : String
  pub target_partition : Option TargetPartition
  pub deadline : ℕ

abbrev pub single : List String → Option String
single [] = none
single (cidr ∷ []) = some cidr
single (cidr ∷ other ∷ rest) = none

module _ (text : PrefixText) where
  -- A CIDR that parses, is masked, and is written as `String` writes it.
  unfoldable pub is_canonical : String → Bool
  is_canonical value = elim (text.parse_prefix value) [
    | none ↦ false
    | some prefix ↦ same_prefix prefix (masked prefix) && str_eq (text.format_prefix prefix) value
  ]

  unfoldable pub validate_partition : TargetPartition → Bool
  unfolding is_canonical
  validate_partition partition =
      is_sha256_hex partition.key
      && not (
          ltb partition.count 1
          || ltb default_max_partitions partition.count
          || leb partition.count partition.ordinal)
      && not (ltb (length partition.cidrs) 1 || ltb max_partition_cidrs (length partition.cidrs))
      && not (any (λ value. not (is_canonical value)) partition.cidrs)

  -- `validateTargetPartition`: a task need not have one.
  abbrev pub validate_target_partition : Option TargetPartition → Bool
  validate_target_partition none = true
  validate_target_partition (some partition) = validate_partition partition

  -- The address of the only CIDR, an IPv4 /32.
  pub host_prefix : List String → Option Prefix
  host_prefix cidrs = elim (single cidrs) [
    | none ↦ none
    | some cidr ↦ elim (text.parse_prefix cidr) [
      | none ↦ none
      | some prefix ↦ if prefix.is4 && prefix.bits == 32 then some prefix else none
    ]
  ]

  is_host : List String → Bool
  unfolding host_prefix
  is_host cidrs = elim (host_prefix cidrs) [ none ↦ false | some prefix ↦ true ]

  one_target : Option TargetPartition → Bool
  unfolding is_host
  one_target none = false
  one_target (some partition) = leb partition.count max_ssh_targets && is_host partition.cidrs

  operation_ok : Task → Option Operation → Bool
  unfolding one_target
  operation_ok task none = false
  operation_ok task (some local_v1) = str_eq task.credential_binding_id ""
  operation_ok task (some ssh_linux_v1) =
      safe_id task.credential_binding_id && one_target task.target_partition
  operation_ok task (some winrm_windows_v1) =
      safe_id task.credential_binding_id && one_target task.target_partition

  -- `validateTask`, at a time.
  unfoldable pub validate_task : ℕ → Task → Bool
  unfolding operation_ok validate_partition
  validate_task now task =
      (safe_id task.task_id
        && safe_id task.run_id
        && safe_id task.attempt_id
        && safe_id task.profile_id
        && safe_id task.lease_token)
      && not (lt_ℕ task.profile_revision 1)
      && validate_target_partition task.target_partition
      && not (task.lease_expires_at == 0 || task.deadline == 0)
      && ltb now task.lease_expires_at
      && leb task.lease_expires_at task.deadline
      && operation_ok task task.operation

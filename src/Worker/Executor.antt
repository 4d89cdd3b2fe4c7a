-- ===== src/Worker/Executor.antt =====
-- internal/worker/executor.go: what the worker discovers for a task. The plugins are a parameter.
pub mod Policed
use Prim.Native.String.{◌++◌ as str_append}
use topo.Prelude.{
  ℕ, ◌+◌, ◌≡◌, Bool, true, false, not, ◌&&◌, ◌||◌, ◌==◌, String, str_eq, codes, Option, none, some,
  List, [], ◌∷◌, length, leb, ltb, if◌then◌else◌, to_ℕ, Result, ok, err, refuse_if, ◌>>=◌, ◌>>◌,
}
use topo.Enrollment.Ids.{byte_len}
use topo.Mid.Records.{every, is_alnum}
use topo.Worker.Prefix.{Addr, Prefix, first}
use topo.Worker.Plan.{TargetPartition, PrefixText}
use topo.Worker.Policy.{
  Policy, local_v1, ssh_linux_v1, winrm_windows_v1, validate, task_duration, target_allowed,
}
use topo.Worker.Task.{Task, validate_task, single, host_prefix}

-- PasswordCredential.
pub record Credential : Type 0 where
  pub username : String
  pub password : String

-- What a plugin is asked to discover.
pub data Target : Type 0 where
  local_host : Target
  ssh_host winrm_host : Credential → Addr → Target

-- discovery.Request
pub record Request : Type 0 where
  pub job_id : String
  pub site_id : String
  pub collector_id : String
  pub target : Target
  pub deadline : ℕ

pub data ExecuteError : Type 0 where
  invalid_policy invalid_task lease_expired deadline_expired not_allowed : ExecuteError
  local_authority not_one_target outside_allowlist no_credentials : ExecuteError
  credential_resolution discovery_failed : ExecuteError

-- The executor: whether it has the callback for host keys, and roots for WinRM.
pub record Executor : Type 0 where
  pub policy : Policy
  pub has_host_keys : Bool
  pub has_roots : Bool

-- The source of credentials: there may be none, and it may fail.
abbrev pub Credentials : Type 0
Credentials = Option (Option Credential)

-- `^[A-Za-z0-9._-]{1,64}$`
abbrev safe_ssh_username : String → Bool
safe_ssh_username s =
    leb 1 (length (codes s))
    && leb (length (codes s)) 64
    && every (λ c. is_alnum c || c == 46 || c == 95 || c == 45) (codes s)

-- `^[A-Za-z0-9._@\\-]{1,256}$`
abbrev safe_password_username : String → Bool
safe_password_username s =
    leb 1 (length (codes s))
    && leb (length (codes s)) 256
    && every (λ c. is_alnum c || c == 46 || c == 95 || c == 64 || c == 92 || c == 45) (codes s)

abbrev usable : (String → Bool) → Credential → Bool
usable safe c =
    safe c.username && not (str_eq c.password "") && leb (byte_len (codes c.password)) 4096

abbrev earlier : ℕ → ℕ → ℕ
earlier a b = if ltb a b then a else b

module _ (text : PrefixText) (executor : Executor) where
  abbrev request_for : Task → Target → ℕ → Request
  request_for task target deadline = record {
    job_id = task.task_id;
    site_id = executor.policy.site_id;
    collector_id = str_append "worker-pool-" executor.policy.worker_pool;
    target = target;
    deadline = deadline;
  }

  local_target : Task → Result ExecuteError Target
  local_target task =
      if not executor.policy.allow_local then err not_allowed else elim task.target_partition [
        | some partition ↦ err local_authority
        | none ↦ if str_eq task.credential_binding_id "" then ok local_host else err local_authority
      ]

  credential_for : (String → Bool) → ExecuteError → Credentials → Result ExecuteError Credential
  credential_for safe missing none = err missing
  credential_for safe missing (some none) = err credential_resolution
  credential_for safe missing (some (some c)) =
      if usable safe c then ok c else err credential_resolution

  ssh_address : Option TargetPartition → Result ExecuteError Addr
  ssh_address none = err not_one_target
  ssh_address (some partition) = elim (host_prefix text partition.cidrs) [
    | none ↦ err not_one_target
    | some prefix ↦
        if target_allowed (first prefix) executor.policy.ssh_allowlist
        then ok (first prefix)
        else err outside_allowlist
  ]

  ssh_target : Task → Credentials → Result ExecuteError Target
  unfolding ssh_address credential_for
  ssh_target task credentials = do
    refuse_if (not (executor.policy.allow_ssh_linux && executor.has_host_keys)) not_allowed
    address ← ssh_address task.target_partition
    credential ← credential_for safe_ssh_username no_credentials credentials
    ok (ssh_host credential address)

  -- A validated task has a partition with one CIDR: the first is the only one.
  winrm_address : Option TargetPartition → Result ExecuteError Addr
  winrm_address none = err outside_allowlist
  winrm_address (some partition) = elim (single partition.cidrs) [
    | none ↦ err outside_allowlist
    | some cidr ↦ elim (text.parse_prefix cidr) [
      | none ↦ err outside_allowlist
      | some prefix ↦
          if target_allowed (first prefix) executor.policy.winrm_allowlist
          then ok (first prefix)
          else err outside_allowlist
    ]
  ]

  winrm_target : Task → Credentials → Result ExecuteError Target
  unfolding winrm_address credential_for
  winrm_target task credentials = do
    refuse_if (not (executor.policy.allow_winrm_windows && executor.has_roots)) not_allowed
    address ← winrm_address task.target_partition
    credential ← credential_for safe_password_username credential_resolution credentials
    ok (winrm_host credential address)

  target_of : Task → Credentials → Result ExecuteError Target
  unfolding local_target ssh_target winrm_target
  target_of task credentials = elim task.operation [
    | none ↦ err not_allowed
    | some local_v1 ↦ local_target task
    | some ssh_linux_v1 ↦ ssh_target task credentials
    | some winrm_windows_v1 ↦ winrm_target task credentials
  ]

  -- The request that `execute` hands to a plugin, with the time of the check of the task and the
  -- one read after it.
  unfoldable pub prepare : ℕ → ℕ → Task → Credentials → Result ExecuteError Request
  unfolding target_of
  prepare checked current task credentials = do
    refuse_if (not (validate executor.policy)) invalid_policy
    refuse_if (not (validate_task text checked task)) invalid_task
    refuse_if (leb task.lease_expires_at current) lease_expired
    refuse_if (leb task.deadline current) deadline_expired
    target ← target_of task credentials
    ok (
        request_for task target
          (earlier task.deadline (current + to_ℕ (task_duration executor.policy))))

  module _ {Observation : Type 0} (discover : Request → Option Observation) where
    pub execute : ℕ → ℕ → Task → Credentials → Result ExecuteError Observation
    unfolding prepare
    execute checked current task credentials = do
      request ← prepare checked current task credentials
      elim (discover request) [ none ↦ err discovery_failed | some observation ↦ ok observation ]

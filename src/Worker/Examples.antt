-- ===== src/Worker/Examples.antt =====
-- Runs of the runtime of a worker.
use topo.Prelude.{
  ◌+◌, ◌-◌, ◌≤◌, ◌<◌, ◌≡◌, refl, true, false, ◌&&◌, ◌||◌, leb, ltb, none, some, [], ◌∷◌, String,
  count, to_count, pos, to_ℕ, ok, arith,
}
use topo.Worker.Ids.{safe_id}
use topo.Worker.Prefix.{masked, block, contains}
use topo.Worker.Plan.{TargetPartition}
use topo.Worker.Plan.Examples.{unary, some_key, parse_unary, parse_letters, format_unary, letters}
use topo.Worker.Policy.{
  Policy, ssh_linux_v1, validate, task_duration, start_interval, concurrency, target_allowed,
}
use topo.Worker.Task.{Task, validate_task, validate_partition, is_canonical}
use topo.Worker.Executor.{Credential, ssh_host, Request, Executor, prepare}
use topo.Worker.Executor.Policed.{Allows, prepare-Policed}
use topo.Worker.Active.{
  ActiveTasks, no_tasks, claimed, finished, no_task, run_cycle, at_start, after, cycles,
}
use topo.Worker.Active.Bounded.{IsBounded, Reachable-IsBounded}
use topo.Worker.Lease.{
  thirty_seconds, ten_milliseconds, renewal_delay, Round, held_until, lease_round, maintain_lease,
}
use topo.Worker.Lease.Renewals.{maintain_lease-renews}
use topo.Worker.Attempt.{Course, task_cancelled, execute_task, is_cancelled}
use topo.Worker.Attempt.Reports.{
  is_chunk, is_success, is_failure, is_sendable, accepted, execute_task-reports,
}

abbrev ssh_policy : Policy
ssh_policy = record {
  worker_pool = "pool";
  site_id = "site";
  allow_local = false;
  allow_ssh_linux = true;
  allow_winrm_windows = false;
  winrm_allowlist = [];
  winrm_trust_digest = "";
  ssh_allowlist = record { is4 = true; addr = 0; bits = 30 } ∷ [];
  ssh_host_key_digest = some_key;
  max_task_duration = pos 0;
  max_concurrency = pos 2;
  remote_start_interval = pos 0;
}

-- Address 1 as a /32, in unary digits.
abbrev host_partition : TargetPartition
host_partition = record {
  key = some_key;
  ordinal = 0;
  count = 1;
  cidrs = "4a////////////////////////////////" ∷ [];
}

abbrev ssh_task : String → Task
ssh_task attempt = record {
  task_id = "task";
  run_id = "run";
  attempt_id = attempt;
  lease_token = "token";
  lease_expires_at = 500;
  operation = some ssh_linux_v1;
  profile_id = "profile";
  profile_revision = pos 1;
  credential_binding_id = "binding";
  target_partition = some host_partition;
  deadline = 900;
}

abbrev root_login : Credential
root_login = record { username = "root"; password = "secret" }

abbrev ssh_executor : Executor
ssh_executor = record { policy = ssh_policy; has_host_keys = true; has_roots = false }

abbrev ssh_request : Request
ssh_request = record {
  job_id = "task";
  site_id = "site";
  collector_id = "worker-pool-pool";
  target = ssh_host root_login (record { is4 = true; value = 1 });
  deadline = 900;
}

prepared :
    prepare unary ssh_executor 100 120 (ssh_task "a1") (some (some root_login)) ≡ ok ssh_request
unfolding prepare validate task_duration start_interval concurrency validate_task validate_partition
    is_canonical safe_id parse_unary parse_letters format_unary letters masked block contains
    target_allowed
prepared = refl

prepare-Policed_example :
    Allows ssh_policy ssh_request.target
    × (validate ssh_policy ≡ true)
    × (validate_task unary 100 (ssh_task "a1") ≡ true)
    × (120 < 500)
    × (120 < ssh_request.deadline)
    × (ssh_request.deadline ≤ 900)
    × (ssh_request.deadline ≤ 120 + to_ℕ (task_duration ssh_policy))
prepare-Policed_example =
    prepare-Policed unary ssh_executor 100 120 (ssh_task "a1") (some (some root_login)) ssh_request
      prepared

-- Three tasks for a worker that may run two, of which the first ends in time.
abbrev after_cycle : ActiveTasks
after_cycle =
    run_cycle ssh_policy (some [])
      (claimed (ssh_task "a1")
        ∷ claimed (ssh_task "a2")
        ∷ finished "a1"
        ∷ claimed (ssh_task "a3")
        ∷ no_task
        ∷ [])
      no_tasks

Reachable-IsBounded_example : IsBounded (to_ℕ (concurrency ssh_policy)) after_cycle
Reachable-IsBounded_example =
    Reachable-IsBounded ssh_policy after_cycle
      (after no_tasks after_cycle at_start (cycles no_tasks _ _))

abbrev answered_round : Round
answered_round = record {
  now = 100;
  done_waiting = false;
  answer = some (record { lease_expires_at = 800; cancelled = false });
  done_calling = false;
  answered_at = 300;
}

renewed : maintain_lease 900 (held_until 500) (answered_round ∷ []) ≡ held_until 800
unfolding maintain_lease lease_round
renewed = refl

maintain_lease-renews_example :
    (400 + renewal_delay (800 - 400) < 800)
    × (800 ≤ 900)
    × (renewal_delay (800 - 400) ≤ thirty_seconds)
    × ((ltb (800 - 400) (ten_milliseconds + ten_milliseconds)
          || leb ten_milliseconds (renewal_delay (800 - 400)))
        ≡ true)
maintain_lease-renews_example =
    maintain_lease-renews 900 500 800 400 (answered_round ∷ []) (ground arith) renewed
      (ground arith)

-- The task is cancelled after its observation was accepted.
abbrev late_cancel : Course
late_cancel = record {
  is_remote = true;
  start = none;
  execution = none;
  stopped_at_error = false;
  lease_error = some task_cancelled;
  encoded = some 1000;
  submitted = some true;
  stopped_at_end = false;
}

execute_task-reports_example :
    (count is_chunk (execute_task late_cancel) ≡ to_count (is_sendable late_cancel))
    × (count is_success (execute_task late_cancel)
        ≡ to_count (is_sendable late_cancel && accepted late_cancel.submitted))
    × (count is_failure (execute_task late_cancel) ≤ 1)
    × (count is_success (execute_task late_cancel) + count is_failure (execute_task late_cancel)
        ≤ 1 + to_count (is_cancelled late_cancel.lease_error))
execute_task-reports_example = execute_task-reports late_cancel

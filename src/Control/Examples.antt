-- ===== src/Control/Examples.antt =====
-- A server that has registered a worker, started a run and leased its task, and the theorems at it.
use topo.Prelude.{◌≡◌, refl, none, some, [], ◌∷◌, lookup, store, sort_slice, insert_sorted}
use topo.Worker.Plan.{TargetPartition}
use topo.Control.Records.{Config, Server, ControlText}
use topo.Control.Leases.{Claim, is_held, reclaim, reclaim_one, worker_lease_count, pool_lease_count}
use topo.Control.Runs.{local_v1, create_run, create_tasks}
use topo.Control.Handlers.{
  RegisterRequest, register, invalid_registration, valid_capabilities, claim, claimable, next_task,
  assign, lease_task,
}
use topo.Control.Honoured.{HonouredIn, claim-HonouredIn}
use topo.Control.Steps.{registers, claims, runs_now, new_server, serve, Reachable, start, next}
use topo.Control.Bounded.{IsBounded}
use topo.Control.Limits.{served-IsBounded}

abbrev whole : TargetPartition
whole = record { key = ""; ordinal = 0; count = 1; cidrs = [] }

-- Numbers are not written out: the example has one worker, one run and one task.
abbrev plain : ControlText
plain = record {
  run_id = λ n. "run";
  task_id = λ n. "task";
  worker_id = λ n. "worker";
  attempt_id = λ id n. "attempt";
  result_key = λ id attempt. id;
  sha256_hex = λ token. token;
  decode_one = λ payload. none;
  decode_lines = λ payload. none;
  preview = λ envelopes. none;
  remote_partition = λ target. whole;
  numbered_partition = λ ordinal count. whole;
}

abbrev config : Config
config = record {
  lease_duration = 60;
  success_raw_ttl = 10;
  failure_raw_ttl = 20;
  pool_max_leases = 1;
  username = "root";
  password = "secret";
}

abbrev newcomer : RegisterRequest
newcomer = record {
  schema_version = "v1alpha1";
  boot_id = "b1";
  worker_pool = "pool";
  site_id = "dc";
  version = "1";
  capabilities = local_v1 ∷ [];
  policy_digest = "";
  max_concurrency = 1;
}

abbrev working : Server
working = serve plain config (claims 3 "token" "worker" "b1" (local_v1 ∷ []) 0) (
    serve plain config (runs_now 2 "pool" 1) (serve plain config (registers 1 newcomer) new_server))

working-Reachable : Reachable plain config working
unfolding lookup
working-Reachable =
    next (next (next start (registers 1 newcomer) refl) (runs_now 2 "pool" 1) tt)
      (claims 3 "token" "worker" "b1" (local_v1 ∷ []) 0) tt

served-IsBounded_example : IsBounded config working
served-IsBounded_example = served-IsBounded plain config working-Reachable

abbrev started : Server
started =
    serve plain config (runs_now 2 "pool" 1) (serve plain config (registers 1 newcomer) new_server)

abbrev mine : Claim
mine = record {
  worker_id = "worker";
  boot_id = "b1";
  attempt_id = "attempt";
  lease_token = "token";
}

claim-HonouredIn_example :
    HonouredIn plain config 3 "token" "worker" 50 mine "b1"
      (claim plain config 3 "token" "worker" "b1" (local_v1 ∷ []) 0 started)
claim-HonouredIn_example =
    claim-HonouredIn plain config 3 "token" "worker" 50 mine "b1" (local_v1 ∷ []) 0 started

claimed :
    (claim plain config 3 "token" "worker" "b1" (local_v1 ∷ []) 0 started).1
    ≡ some ("task", "attempt")
unfolding claim serve register create_run create_tasks lookup store reclaim reclaim_one next_task
    assign lease_task worker_lease_count pool_lease_count claimable sort_slice insert_sorted is_held
    invalid_registration valid_capabilities
claimed = refl

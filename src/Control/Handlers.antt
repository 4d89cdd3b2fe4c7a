-- ===== src/Control/Handlers.antt =====
-- server.go: the requests of workers. A body that does not decode changes nothing, and is left out.
use topo.Prelude.{
  ℕ, ◌+◌, ◌==◌, Bool, true, false, not, ◌&&◌, ◌||◌, String, str_eq, Option, none, some, List, [],
  ◌∷◌, length, ltb, leb, any, if◌then◌else◌, GoMap, lookup, store, sort_slice,
}
use topo.Store.Model.{str_less}
use topo.Control.Records.{
  TaskState, RunState, TaskRecord, WorkerRecord, Config, Server, ControlText,
}
use topo.Control.Leases.{worker_lease_count, pool_lease_count, set_task, reclaim, keys}
use topo.Control.Runs.{local_v1, ssh_linux_v1, winrm_windows_v1}

pub record RegisterRequest : Type 0 where
  pub schema_version : String
  pub boot_id : String
  pub worker_pool : String
  pub site_id : String
  pub version : String
  pub capabilities : List String
  pub policy_digest : String
  pub max_concurrency : ℕ

abbrev pub equal_strings : List String → List String → Bool
equal_strings [] [] = true
equal_strings (a ∷ left) (b ∷ right) = str_eq a b && equal_strings left right
equal_strings [] (b ∷ right) = false
equal_strings (a ∷ left) [] = false

abbrev pub contains : List String → String → Bool
contains values wanted = any (λ v. str_eq v wanted) values

abbrev canonical : List String → List String → List String
canonical values [] = []
canonical values (operation ∷ rest) =
    if contains values operation then operation ∷ canonical values rest else canonical values rest

-- Known, not repeated, and in their canonical order.
unfoldable pub valid_capabilities : List String → Bool
valid_capabilities values =
    not (length values == 0)
    && leb (length values) 3
    && equal_strings values (canonical values (local_v1 ∷ ssh_linux_v1 ∷ winrm_windows_v1 ∷ []))

abbrev pub default_max_concurrency : ℕ
default_max_concurrency = 1

abbrev pub max_worker_concurrency : ℕ
max_worker_concurrency = 32

abbrev pub limit_requested : RegisterRequest → ℕ
limit_requested request =
    if request.max_concurrency == 0 then default_max_concurrency else request.max_concurrency

unfoldable pub invalid_registration : RegisterRequest → Bool
invalid_registration request =
    not (str_eq request.schema_version "v1alpha1")
    || str_eq request.boot_id ""
    || str_eq request.worker_pool ""
    || str_eq request.site_id ""
    || not (valid_capabilities request.capabilities)
    || ltb (limit_requested request) 1
    || ltb max_worker_concurrency (limit_requested request)

unfoldable pub register : ControlText → ℕ → RegisterRequest → Server → Server × Option String
register text now request s =
    let id = text.worker_id (s.next_id + 1) in
    if invalid_registration request then (s, none) else (
      record s {
        next_id = s.next_id + 1;
        workers = store s.workers id (record {
          boot_id = request.boot_id;
          worker_pool = request.worker_pool;
          site_id = request.site_id;
          version = request.version;
          capabilities = request.capabilities;
          policy_digest = request.policy_digest;
          max_concurrency = limit_requested request;
          current_leases = 0;
          last_heartbeat = now;
        });
      },
      some id,
    )

-- The attempts that a worker is told to cancel.
unfoldable pub cancelled_attempts : String → String → GoMap TaskRecord → List String
cancelled_attempts worker boot [] = []
cancelled_attempts worker boot ((id, t) ∷ rest) =
    if str_eq t.worker_id worker
      && str_eq t.boot_id boot
      && t.cancel_requested
      && not (str_eq t.attempt_id "")
    then t.attempt_id ∷ cancelled_attempts worker boot rest
    else cancelled_attempts worker boot rest

unfoldable pub heartbeat : ℕ → String → String → Server → Server × Option (List String)
heartbeat now worker boot s = elim (lookup s.workers worker) [
  | none ↦ (s, none)
  | some r ↦
      if str_eq r.boot_id boot
      then (
        record s {
          workers =
              store s.workers worker
                (record r { last_heartbeat = now; current_leases = worker_lease_count s worker });
        },
        some (sort_slice str_less (cancelled_attempts worker boot s.tasks)),
      )
      else (s, none)
]

abbrev pub is_ready : TaskState → Bool
is_ready TaskState.ready = true
is_ready _ = false

-- The tasks that a worker may claim.
unfoldable pub claimable : WorkerRecord → GoMap TaskRecord → List String
claimable r [] = []
claimable r ((id, t) ∷ rest) =
    if is_ready t.state && str_eq t.worker_pool r.worker_pool && contains r.capabilities t.operation
    then id ∷ claimable r rest
    else claimable r rest

-- The task under a lease of this attempt.
unfoldable pub leased :
    ControlText → Config → ℕ → String → String → WorkerRecord → String → TaskRecord → TaskRecord
leased text config now token worker r id t = record t {
  attempt = t.attempt + 1;
  attempt_id = text.attempt_id id (t.attempt + 1);
  worker_id = worker;
  boot_id = r.boot_id;
  lease_digest = text.sha256_hex token;
  lease_expires_at =
      if ltb t.deadline (now + config.lease_duration)
      then t.deadline
      else now + config.lease_duration;
  state = TaskState.leased;
}

abbrev pub run_attempted : String → Server → Server
run_attempted id s = elim (lookup s.runs id) [
  | none ↦ s
  | some run ↦ record s {
    runs = store s.runs id (record run { state = RunState.running; attempts = run.attempts + 1 });
  }
]

abbrev pub first {ℓ} : {A : Type ℓ} → List A → Option A
first [] = none
first (a ∷ rest) = some a

abbrev pub counted_lease : String → WorkerRecord → ℕ → Server → Server
counted_lease worker r n s = record s {
  workers = store s.workers worker (record r { current_leases = n });
}

-- The smallest ID among the tasks that can be claimed, if the limits leave room.
unfoldable pub next_task : Config → String → WorkerRecord → Server → Option String
next_task config worker r s =
    if leb r.max_concurrency (worker_lease_count s worker)
      || leb config.pool_max_leases (pool_lease_count s r.worker_pool)
    then none
    else first (sort_slice str_less (claimable r s.tasks))

-- The lease of the task that was chosen, and the ID of its task and attempt.
unfoldable pub lease_task :
    ControlText
    → Config
    → ℕ
    → String
    → String
    → WorkerRecord
    → String
    → Option TaskRecord
    → Server
    → Server × Option (String × String)
lease_task text config now token worker r id none s = (s, none)
lease_task text config now token worker r id (some t) s = (
  run_attempted t.run_id (
      counted_lease worker r (worker_lease_count s worker + 1)
        (set_task s id (leased text config now token worker r id t))),
  some (id, text.attempt_id id (t.attempt + 1)),
)

unfoldable pub assign :
    ControlText
    → Config
    → ℕ
    → String
    → String
    → WorkerRecord
    → Option String
    → Server
    → Server × Option (String × String)
assign text config now token worker r none s =
    (counted_lease worker r (worker_lease_count s worker) s, none)
assign text config now token worker r (some id) s =
    lease_task text config now token worker r id (lookup s.tasks id) s

-- `claim`; `none` is a refusal or an empty answer.
unfoldable pub claim :
    ControlText
    → Config
    → ℕ
    → String
    → String
    → String
    → List String
    → ℕ
    → Server
    → Server × Option (String × String)
claim text config now token worker boot capabilities current s = elim (lookup s.workers worker) [
  | none ↦ (s, none)
  | some r ↦
      if not (str_eq r.boot_id boot)
        || not (equal_strings capabilities r.capabilities)
        || ltb r.max_concurrency current
      then (s, none)
      else let s' = reclaim now (keys s.tasks) s in
        assign text config now token worker r (next_task config worker r s') s'
]

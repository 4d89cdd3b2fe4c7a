-- ===== src/Control/Leases.antt =====
-- server.go: leases, their counts, and the expiry of those that were not renewed.
use topo.Prelude.{
  ℕ, ◌==◌, Bool, true, false, not, ◌&&◌, ◌||◌, String, str_eq, Option, none, some, List, [], ◌∷◌,
  length, ltb, leb, if◌then◌else◌, GoMap, lookup, store, count,
}
use topo.Control.Records.{TaskState, RunState, TaskRecord, RunRecord, Server, ControlText}

-- `"leased"`, `"running"` or `"results_received"`
unfoldable pub is_held : TaskState → Bool
is_held TaskState.leased = true
is_held TaskState.running = true
is_held TaskState.results_received = true
is_held TaskState.ready = false
is_held TaskState.complete = false
is_held TaskState.failed = false
is_held TaskState.cancelled = false

-- What a worker sends to show that a lease is its own.
pub record Claim : Type 0 where
  pub worker_id : String
  pub boot_id : String
  pub attempt_id : String
  pub lease_token : String

unfoldable pub owns : ControlText → ℕ → Claim → TaskRecord → Bool
owns text now c t =
    is_held t.state
    && str_eq t.worker_id c.worker_id
    && str_eq t.boot_id c.boot_id
    && str_eq t.attempt_id c.attempt_id
    && ltb now t.lease_expires_at
    && str_eq t.lease_digest (text.sha256_hex c.lease_token)

-- The task, where the lease is valid.
unfoldable pub valid_lease : ControlText → ℕ → Server → String → Claim → Option TaskRecord
valid_lease text now s id c = elim (lookup s.tasks id) [
  | none ↦ none
  | some t ↦ if owns text now c t then some t else none
]

abbrev pub held_by : String → String × TaskRecord → Bool
held_by worker entry = str_eq entry.1.worker_id worker && is_held entry.1.state

abbrev pub held_in : String → String × TaskRecord → Bool
held_in pool entry = str_eq entry.1.worker_pool pool && is_held entry.1.state

unfoldable pub worker_lease_count : Server → String → ℕ
worker_lease_count s worker = count (held_by worker) s.tasks

unfoldable pub pool_lease_count : Server → String → ℕ
pool_lease_count s pool = count (held_in pool) s.tasks

-- `s.tasks[taskID].State` for each task of a run. A run lists only tasks that there are.
unfoldable pub states_of : GoMap TaskRecord → List String → List TaskState
states_of tasks [] = []
states_of tasks (id ∷ ids) =
    elim (lookup tasks id) [ none ↦ TaskState.ready | some t ↦ t.state ] ∷ states_of tasks ids

abbrev pub is_complete : TaskState → Bool
is_complete TaskState.complete = true
is_complete _ = false

abbrev pub is_failed : TaskState → Bool
is_failed TaskState.failed = true
is_failed _ = false

abbrev pub is_cancelled : TaskState → Bool
is_cancelled TaskState.cancelled = true
is_cancelled _ = false

abbrev pub is_terminal : TaskState → Bool
is_terminal t = is_complete t || is_failed t || is_cancelled t

abbrev pub is_cancelling : RunState → Bool
is_cancelling RunState.cancelling = true
is_cancelling _ = false

-- The run after its tasks have changed.
unfoldable pub refreshed : ℕ → List TaskState → RunRecord → RunRecord
refreshed now states run =
    if not (count (λ t. not (is_terminal t)) states == 0)
    then if is_cancelling run.state then run else record run { state = RunState.running }
    else record run {
      state =
          if not (count is_failed states == 0)
          then RunState.failed
          else if not (count is_cancelled states == 0)
          then RunState.cancelled
          else if count is_complete states == length run.task_ids
          then RunState.complete
          else run.state;
      completed_at = some now;
    }

unfoldable pub refresh_run : ℕ → String → Server → Server
refresh_run now id s = elim (lookup s.runs id) [
  | none ↦ s
  | some run ↦ record s {
    runs = store s.runs id (refreshed now (states_of s.tasks run.task_ids) run);
  }
]

abbrev pub set_task : Server → String → TaskRecord → Server
set_task s id t = record s { tasks = store s.tasks id t }

-- The task of a lease that has expired.
unfoldable pub released : TaskRecord → TaskRecord
released t = record t {
  state = if t.cancel_requested then TaskState.cancelled else TaskState.ready;
  worker_id = "";
  boot_id = "";
  lease_digest = "";
  attempt_id = "";
  cancel_requested = false;
}

unfoldable pub reclaim_one : ℕ → String → Option TaskRecord → Server → Server
reclaim_one now id none s = s
reclaim_one now id (some t) s =
    if is_held t.state && leb t.lease_expires_at now
    then refresh_run now t.run_id (set_task s id (released t))
    else s

-- The loop over `s.tasks` at the head of `claim`.
unfoldable pub reclaim : ℕ → List String → Server → Server
reclaim now [] s = s
reclaim now (id ∷ ids) s = reclaim now ids (reclaim_one now id (lookup s.tasks id) s)

abbrev pub keys {ℓ} : {V : Type ℓ} → GoMap V → List String
keys [] = []
keys ((k, v) ∷ rest) = k ∷ keys rest

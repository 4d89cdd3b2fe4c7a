-- ===== src/Control/Runs.antt =====
-- server.go: runs and what starts, cancels and cleans up.
use topo.Prelude.{
  ℕ, zero, suc, ◌+◌, Bool, true, false, not, ◌&&◌, ◌||◌, String, str_eq, Option, none, some, List,
  [], ◌∷◌, ◌++◌, ltb, leb, any, if◌then◌else◌, GoMap, lookup, store,
}
use topo.Worker.Plan.{TargetPartition, default_max_partitions}
use topo.Control.Records.{
  TaskState, RunState, TaskRecord, RunRecord, ResultRecord, ScheduleRecord, Config, Server,
  ControlText,
}
use topo.Control.Leases.{is_held, set_task}

abbrev pub local_v1 : String
local_v1 = "local.v1"

abbrev pub ssh_linux_v1 : String
ssh_linux_v1 = "ssh_linux.v1"

abbrev pub winrm_windows_v1 : String
winrm_windows_v1 = "winrm_windows.v1"

-- `10 * time.Minute`, in nanoseconds.
abbrev pub task_ttl : ℕ
task_ttl = 600000000000

abbrev pub new_run : String → ℕ → List String → RunRecord
new_run trigger now ids = record {
  trigger = trigger;
  state = RunState.ready;
  task_ids = ids;
  started_at = now;
  completed_at = none;
  assets = 0;
  relationships = 0;
  collection_errors = 0;
  attempts = 0;
  error = "";
}

abbrev pub new_task :
    String → String → String → String → String → ℕ → Option TargetPartition → TaskRecord
new_task run pool operation profile binding now partition = record {
  run_id = run;
  worker_pool = pool;
  operation = operation;
  profile_id = profile;
  profile_revision = 1;
  state = TaskState.ready;
  attempt = 0;
  attempt_id = "";
  worker_id = "";
  boot_id = "";
  lease_digest = "";
  lease_expires_at = 0;
  deadline = now + task_ttl;
  chunk_count = 0;
  target_partition = partition;
  credential_binding_id = binding;
  cancel_requested = false;
  error = "";
}

module _ (text : ControlText) where
  unfoldable pub create_remote_run :
      String → String → String → String → String → ℕ → Server → Server
  create_remote_run trigger pool target binding operation now s =
      let run = text.run_id (s.next_id + 1) in
      let task = text.task_id (s.next_id + 2) in
      record s {
        next_id = s.next_id + 2;
        runs = store s.runs run (new_run trigger now (task ∷ []));
        tasks = store s.tasks task (
            new_task run pool operation operation binding now
              (some (text.remote_partition target)));
      }

  -- The loop over the partitions from an ordinal on.
  unfoldable pub create_tasks : ℕ → ℕ → ℕ → String → String → ℕ → Server → Server
  create_tasks zero ordinal partitions run pool now s = s
  create_tasks (suc left) ordinal partitions run pool now s =
      let task = text.task_id (s.next_id + 1) in
      create_tasks left (ordinal + 1) partitions run pool now (record s {
        next_id = s.next_id + 1;
        runs = elim (lookup s.runs run) [
          | none ↦ s.runs
          | some r ↦ store s.runs run (record r { task_ids = r.task_ids ++ task ∷ [] })
        ];
        tasks = store s.tasks task (
            new_task run pool local_v1 "local-v1" "" now (
              if ltb 1 partitions
              then some (text.numbered_partition ordinal partitions)
              else none));
      })

  -- The ID of the run is "" where the number of partitions is refused.
  unfoldable pub create_run : String → String → ℕ → ℕ → Server → Server
  create_run trigger pool partitions now s =
      if ltb partitions 1 || ltb default_max_partitions partitions
      then s
      else create_tasks partitions 0 partitions (text.run_id (s.next_id + 1)) pool now (record s {
        next_id = s.next_id + 1;
        runs = store s.runs (text.run_id (s.next_id + 1)) (new_run trigger now []);
      })

  unfoldable pub upsert_schedule : String → ScheduleRecord → Server → Server
  upsert_schedule id schedule s = record s { schedules = store s.schedules id schedule }

  -- The run of a schedule that is due.
  unfoldable pub enqueue_one : ℕ → String → Option ScheduleRecord → Server → Server
  enqueue_one now id none s = s
  enqueue_one now id (some schedule) s =
      if not schedule.active || ltb now schedule.next_run_at
      then s
      else upsert_schedule id (record schedule { next_run_at = now + schedule.interval })
          (if str_eq schedule.operation ssh_linux_v1 || str_eq schedule.operation winrm_windows_v1
            then create_remote_run "scheduled" schedule.worker_pool schedule.target
                schedule.credential_binding_id schedule.operation now s
            else create_run "scheduled" schedule.worker_pool 1 now s)

  unfoldable pub enqueue_due : ℕ → List String → Server → Server
  enqueue_due now [] s = s
  enqueue_due now (id ∷ ids) s = enqueue_due now ids (enqueue_one now id (lookup s.schedules id) s)

-- A task of a run that is cancelled, and whether it still runs.
unfoldable pub cancelled_task : TaskRecord → TaskRecord
cancelled_task t = elim t.state [
  | TaskState.ready ↦ record t { state = TaskState.cancelled }
  | TaskState.leased ↦ record t { cancel_requested = true }
  | TaskState.running ↦ record t { cancel_requested = true }
  | TaskState.results_received ↦ record t { cancel_requested = true }
  | TaskState.complete ↦ t
  | TaskState.failed ↦ t
  | TaskState.cancelled ↦ t
]

unfoldable pub cancel_one : String → Option TaskRecord → Server → Server
cancel_one id none s = s
cancel_one id (some t) s = set_task s id (cancelled_task t)

unfoldable pub cancel_tasks : List String → Server → Server
cancel_tasks [] s = s
cancel_tasks (id ∷ ids) s = cancel_tasks ids (cancel_one id (lookup s.tasks id) s)

abbrev pub any_held : GoMap TaskRecord → List String → Bool
any_held tasks = any (λ id. elim (lookup tasks id) [ none ↦ false | some t ↦ is_held t.state ])

abbrev pub is_over : RunState → Bool
is_over RunState.complete = true
is_over RunState.failed = true
is_over RunState.cancelled = true
is_over _ = false

unfoldable pub cancel_run : ℕ → String → Server → Server × Bool
cancel_run now id s = elim (lookup s.runs id) [
  | none ↦ (s, false)
  | some run ↦
      if is_over run.state
      then (s, false)
      else let active = any_held s.tasks run.task_ids in
        let s' = cancel_tasks run.task_ids s in
        (
          record s' {
            runs = store s'.runs id (
                if active
                then record run { state = RunState.cancelling }
                else record run { state = RunState.cancelled; completed_at = some now });
          },
          true,
        )
]

-- Whether the payload of a result is due for deletion.
abbrev pub is_due : Config → ℕ → ResultRecord → Bool
is_due config now r = elim r.processed_at [
  | none ↦ false
  | some at ↦
      not r.deleted
      && leb
          (at
            + (if str_eq r.terminal "complete"
                then config.success_raw_ttl
                else config.failure_raw_ttl))
          now
]

-- `CleanupBatch`, over the results in the order of the map; the number that is left of the limit.
unfoldable pub cleanup : Config → ℕ → ℕ → GoMap ResultRecord → GoMap ResultRecord
cleanup config now zero results = results
cleanup config now (suc limit) [] = []
cleanup config now (suc limit) ((key, r) ∷ rest) =
    (key, if is_due config now r then record r { payload = ""; deleted = true } else r)
    ∷ cleanup config now (if is_due config now r then limit else suc limit) rest

-- ===== src/Controller/Schedules.antt =====
-- internal/controller/schedule.go: recurring discovery schedules. `time.Now` is an argument for each
-- of its calls.
pub mod Due
pub mod Bounds
mod Examples
use topo.Prelude.{
  ℕ, ◌+◌, ◌*◌, Bool, true, false, not, ◌||◌, String, str_eq, Option, none, some, List, [], ◌∷◌, ltb,
  if◌then◌else◌, codes, ℤ, lt_ℕ, gt_ℕ, to_ℕ, Result, ok, err,
}
use topo.Audit.{AuditText}
use topo.Enrollment.Ids.{valid_collector_id}
use topo.Store.Model.{Schedule}
use topo.Store.Memory.{Memory, get_schedule, upsert_schedule, delete_schedule, list_schedules}
use topo.Controller.Jobs.{Job, JobStore, JobError, enqueue, has_outstanding}
use topo.Controller.Server.{Server, Reply, record_audit}

abbrev pub min_schedule_interval_seconds : ℕ
min_schedule_interval_seconds = 60

abbrev pub max_schedule_interval_seconds : ℕ
max_schedule_interval_seconds = 7 * 24 * 60 * 60

-- time.Second
abbrev pub second : ℕ
second = 1000000000

pub record ScheduleRequest : Type 0 where
  pub collector_id : String
  pub job_type : String
  pub interval_seconds : ℤ

-- model.JobTypeDiscover
abbrev pub job_type_discover : String
job_type_discover = "discover"

-- The job type of a request: the default where it is empty.
abbrev pub requested_type : String → String
requested_type job_type = if str_eq job_type "" then job_type_discover else job_type

-- A replacement keeps the time of creation.
abbrev pub created_time : Option Schedule → ℕ → ℕ
created_time none now = now
created_time (some existing) now = existing.created_at

abbrev pub schedule_action : Option Schedule → String
schedule_action none = "schedule_created"
schedule_action (some existing) = "schedule_updated"

abbrev pub requested_schedule : ScheduleRequest → Option Schedule → ℕ → Schedule
requested_schedule req existing now = record {
  collector_id = req.collector_id;
  job_type = requested_type req.job_type;
  interval_seconds = to_ℕ req.interval_seconds;
  next_run_at = now;
  created_at = created_time existing now;
  updated_at = now;
}

module _ (text : AuditText) where
  -- A schedule that passed the guards is stored and recorded.
  unfoldable pub apply_schedule : Server → ScheduleRequest → ℕ → ℕ → Server × Reply Schedule
  apply_schedule s req now recorded =
      let existing = get_schedule s.memory req.collector_id in
      let sched = requested_schedule req existing now in
      (
        record_audit text (record s { memory = upsert_schedule s.memory sched }) recorded
            (schedule_action existing) "api-key"
            ((codes "collector_id", codes sched.collector_id)
              ∷ (codes "job_type", codes sched.job_type)
              ∷ (codes "interval_seconds", text.format_int sched.interval_seconds)
              ∷ []),
        ok sched,
      )

  -- A body that does not decode is `none`.
  unfoldable pub create_or_update_schedule :
      Server → Option ScheduleRequest → ℕ → ℕ → Server × Reply Schedule
  create_or_update_schedule s none now recorded = (s, err 400)
  create_or_update_schedule s (some req) now recorded =
      if not (valid_collector_id req.collector_id)
      then (s, err 400)
      else if not (str_eq (requested_type req.job_type) job_type_discover)
      then (s, err 400)
      else if lt_ℕ req.interval_seconds min_schedule_interval_seconds
          || gt_ℕ req.interval_seconds max_schedule_interval_seconds
      then (s, err 400)
      else apply_schedule s req now recorded

  drop_schedule : Server → String → ℕ → Option Schedule → Server × Reply (Unit {0})
  drop_schedule s collector_id recorded none = (s, err 404)
  drop_schedule s collector_id recorded (some sched) = (
    record_audit text (record s { memory = delete_schedule s.memory collector_id }) recorded
        "schedule_deleted" "api-key" ((codes "collector_id", codes collector_id) ∷ []),
    ok tt,
  )

  -- `deleteSchedule`
  unfoldable pub remove_schedule : Server → String → ℕ → Server × Reply (Unit {0})
  unfolding drop_schedule
  remove_schedule s collector_id recorded =
      if not (valid_collector_id collector_id)
      then (s, err 400)
      else drop_schedule s collector_id recorded (get_schedule s.memory collector_id)

-- The calls of the clock in a poll: for the test, the job, the next run and the update.
pub record Clock : Type 0 where
  pub tested : ℕ
  pub enqueued : ℕ
  pub advanced : ℕ
  pub updated : ℕ

-- The schedule after its job.
abbrev pub advance : Schedule → Clock → Schedule
advance sched clock = record sched {
  next_run_at = clock.advanced + sched.interval_seconds * second;
  updated_at = clock.updated;
}

-- The schedule moves on when its job was queued.
after_enqueue : Server → Schedule → Clock → JobStore × Result JobError Job → Server
after_enqueue s sched clock (jobs, err e) = record s { jobs = jobs }
after_enqueue s sched clock (jobs, ok job) = record s {
  jobs = jobs;
  memory = upsert_schedule s.memory (advance sched clock);
}

enqueue_due : Server → String → Clock → Option String → Option Schedule → Server
unfolding after_enqueue
enqueue_due s collector_id clock random none = s
enqueue_due s collector_id clock random (some sched) =
    if ltb clock.tested sched.next_run_at
    then s
    else if has_outstanding s.jobs collector_id sched.job_type
    then s
    else after_enqueue s sched clock
        (enqueue s.jobs random clock.enqueued collector_id sched.job_type)

-- `maybeEnqueueScheduledJob`, with what the random source returns.
unfoldable pub maybe_enqueue_scheduled_job : Server → String → Clock → Option String → Server
unfolding enqueue_due
maybe_enqueue_scheduled_job s collector_id clock random =
    enqueue_due s collector_id clock random (get_schedule s.memory collector_id)

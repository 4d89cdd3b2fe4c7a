-- ===== src/Controller/Schedules/Bounds.antt =====
-- schedule.go: every stored schedule is a discovery at a permitted interval.
use topo.Prelude.{
  ℕ, subst, ◌≤◌, ◌≡◌, refl, true, false, ◌||◌, String, str_eq, eq_iff, Option, none, some, List, [],
  ◌∷◌, arith, ltb, lt_ℕ, gt_ℕ, Result, ok, err, GoMap, lookup, store, delete, lookup-store,
  lookup-delete, inl, inr, Bool-cases,
}
use topo.Audit.{AuditText}
use topo.Enrollment.Ids.{valid_collector_id}
use topo.Store.Model.{Schedule}
use topo.Store.Memory.{append_event, get_schedule, upsert_schedule, delete_schedule}
use topo.Controller.Jobs.{Job, JobStore, JobError, has_outstanding}
use topo.Controller.Server.{Server, record_audit}
use topo.Controller.Schedules.{
  ScheduleRequest, job_type_discover, requested_type, requested_schedule,
  min_schedule_interval_seconds, max_schedule_interval_seconds, apply_schedule,
  create_or_update_schedule, drop_schedule, remove_schedule, Clock, advance, after_enqueue,
  enqueue_due, maybe_enqueue_scheduled_job,
}

-- A schedule that stands under its own collector, for a discovery every minute to every week.
abbrev pub ScheduleOk : String → Schedule → Type 0
ScheduleOk c sched =
    (sched.collector_id ≡ c)
    × (sched.job_type ≡ "discover")
    × (60 ≤ sched.interval_seconds)
    × (sched.interval_seconds ≤ 604800)

abbrev pub SchedulesOk : GoMap Schedule → Type 0
SchedulesOk m = (c : String) (sched : Schedule) → lookup m c ≡ some sched → ScheduleOk c sched

stored_value :
    (m : GoMap Schedule) (c d : String) (sched other : Schedule)
    → str_eq d c ≡ true
    → lookup (store m c sched) d ≡ some other
    → sched ≡ other
stored_value m c d sched other same e = ground (arith, lookup-store m c d sched)

store-SchedulesOk :
    (m : GoMap Schedule) (c : String) (sched : Schedule)
    → ScheduleOk c sched
    → SchedulesOk m
    → SchedulesOk (store m c sched)
store-SchedulesOk m c sched k h d other e = elim (Bool-cases (str_eq d c)) [
  | inl same ↦
      subst (ScheduleOk d) (stored_value m c d sched other same e) (rw ((eq_iff d c).0 same) k)
  | inr differs ↦ h d other (ground (arith, lookup-store m c d sched))
]

delete-SchedulesOk : (m : GoMap Schedule) (c : String) → SchedulesOk m → SchedulesOk (delete m c)
delete-SchedulesOk m c h d other e = let was = lookup-delete m c d in h d other (ground arith)

apply_schedule-SchedulesOk :
    (text : AuditText) (s : Server) (req : ScheduleRequest) (now recorded : ℕ)
    → str_eq (requested_type req.job_type) job_type_discover ≡ true
    → (lt_ℕ req.interval_seconds min_schedule_interval_seconds
        || gt_ℕ req.interval_seconds max_schedule_interval_seconds)
      ≡ false
    → SchedulesOk s.memory.schedules
    → SchedulesOk (apply_schedule text s req now recorded).0.memory.schedules
unfolding apply_schedule record_audit append_event upsert_schedule get_schedule
apply_schedule-SchedulesOk text s req now recorded t b h =
    store-SchedulesOk s.memory.schedules req.collector_id
      (requested_schedule req (get_schedule s.memory req.collector_id) now)
      (refl, (eq_iff _ _).0 t, ground arith, ground arith) h

create_SchedulesOk :
    (text : AuditText) (s : Server) (body : Option ScheduleRequest) (now recorded : ℕ)
    → SchedulesOk s.memory.schedules
    → SchedulesOk (create_or_update_schedule text s body now recorded).0.memory.schedules
unfolding create_or_update_schedule
create_SchedulesOk text s none now recorded h = h
create_SchedulesOk text s (some req) now recorded h =
    elim (Bool-cases (valid_collector_id req.collector_id)) [
      | inr i ↦ rw i h
      | inl v ↦ elim (Bool-cases (str_eq (requested_type req.job_type) job_type_discover)) [
        | inr u ↦ rw (v, u) h
        | inl t ↦
            elim (Bool-cases (
              lt_ℕ req.interval_seconds min_schedule_interval_seconds
              || gt_ℕ req.interval_seconds max_schedule_interval_seconds)) [
                | inl o ↦ rw (v, t, o) h
                | inr b ↦ rw (v, t, b) (apply_schedule-SchedulesOk text s req now recorded t b h)
              ]
      ]
    ]

drop_SchedulesOk :
    (text : AuditText) (s : Server) (c : String) (recorded : ℕ) (o : Option Schedule)
    → SchedulesOk s.memory.schedules
    → SchedulesOk (drop_schedule text s c recorded o).0.memory.schedules
unfolding drop_schedule record_audit append_event delete_schedule
drop_SchedulesOk text s c recorded none h = h
drop_SchedulesOk text s c recorded (some sched) h = delete-SchedulesOk s.memory.schedules c h

remove_SchedulesOk :
    (text : AuditText) (s : Server) (c : String) (recorded : ℕ)
    → SchedulesOk s.memory.schedules
    → SchedulesOk (remove_schedule text s c recorded).0.memory.schedules
unfolding remove_schedule
remove_SchedulesOk text s c recorded h = elim (Bool-cases (valid_collector_id c)) [
  | inr i ↦ rw i h
  | inl v ↦ rw v (drop_SchedulesOk text s c recorded (get_schedule s.memory c) h)
]

after_SchedulesOk :
    (s : Server) (c : String) (sched : Schedule) (clock : Clock)
    (r : JobStore × Result JobError Job)
    → ScheduleOk c sched
    → SchedulesOk s.memory.schedules
    → SchedulesOk (after_enqueue s sched clock r).memory.schedules
unfolding after_enqueue upsert_schedule
after_SchedulesOk s c sched clock (jobs, err e) k h = h
after_SchedulesOk s c sched clock (jobs, ok job) k h =
    store-SchedulesOk s.memory.schedules sched.collector_id (advance sched clock)
      (refl, k.1, k.2, k.3) h

due_SchedulesOk :
    (s : Server) (c : String) (clock : Clock) (random : Option String) (o : Option Schedule)
    → lookup s.memory.schedules c ≡ o
    → SchedulesOk s.memory.schedules
    → SchedulesOk (enqueue_due s c clock random o).memory.schedules
unfolding enqueue_due
due_SchedulesOk s c clock random none e h = h
due_SchedulesOk s c clock random (some sched) e h =
    elim (Bool-cases (ltb clock.tested sched.next_run_at)) [
      | inl early ↦ rw early h
      | inr due ↦ elim (Bool-cases (has_outstanding s.jobs c sched.job_type)) [
        | inl busy ↦ rw (due, busy) h
        | inr idle ↦ rw (due, idle) (after_SchedulesOk s c sched clock _ (h c sched e) h)
      ]
    ]

pub maybe_SchedulesOk :
    (s : Server) (c : String) (clock : Clock) (random : Option String)
    → SchedulesOk s.memory.schedules
    → SchedulesOk (maybe_enqueue_scheduled_job s c clock random).memory.schedules
unfolding maybe_enqueue_scheduled_job get_schedule
maybe_SchedulesOk s c clock random h = due_SchedulesOk s c clock random _ refl h

-- The operations on schedules.
pub data Op : Type 0 where
  creates : Option ScheduleRequest → ℕ → ℕ → Op
  removes : String → ℕ → Op
  polled : String → Clock → Option String → Op

pub step : AuditText → Server → Op → Server
step text s (creates body now recorded) = (create_or_update_schedule text s body now recorded).0
step text s (removes c recorded) = (remove_schedule text s c recorded).0
step text s (polled c clock random) = maybe_enqueue_scheduled_job s c clock random

pub run : AuditText → Server → List Op → Server
run text s [] = s
run text s (op ∷ ops) = run text (step text s op) ops

step-SchedulesOk :
    (text : AuditText) (s : Server) (op : Op)
    → SchedulesOk s.memory.schedules
    → SchedulesOk (step text s op).memory.schedules
unfolding step
step-SchedulesOk text s (creates body now recorded) h =
    create_SchedulesOk text s body now recorded h
step-SchedulesOk text s (removes c recorded) h = remove_SchedulesOk text s c recorded h
step-SchedulesOk text s (polled c clock random) h = maybe_SchedulesOk s c clock random h

-- However schedules are created, replaced, removed and run, each stored schedule stands under its
-- own collector, is for a discovery, and has an interval of 60 seconds to a week, where this held
-- at first.
pub run-SchedulesOk :
    (text : AuditText) (s : Server) (ops : List Op)
    → SchedulesOk s.memory.schedules
    → SchedulesOk (run text s ops).memory.schedules
unfolding run
run-SchedulesOk text s [] h = h
run-SchedulesOk text s (op ∷ ops) h =
    run-SchedulesOk text (step text s op) ops (step-SchedulesOk text s op h)

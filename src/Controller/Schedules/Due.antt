-- ===== src/Controller/Schedules/Due.antt =====
-- schedule.go: when a poll turns a schedule into a job.
use topo.Prelude.{
  ◌+◌, ◌*◌, ◌≤◌, ◌<◌, ◌≡◌, ◌⊎◌, ◌||◌, ap, refl, List, [], ◌∷◌, any, arith, eq_iff, Bool, true,
  false, not, ◌&&◌, String, Option, none, some, ltb, store, lookup-store_self, inl, inr, Bool-cases,
}
use topo.Store.Model.{Schedule}
use topo.Store.Memory.{get_schedule, upsert_schedule}
use topo.Controller.Jobs.{
  JobState, succeeded, failed, is_pending, is_dispatched, JobRecord, pending, dispatched, enqueue,
  is_outstanding, has_outstanding,
}
use topo.Controller.Server.{Server}
use topo.Controller.Schedules.{
  Clock, advance, after_enqueue, enqueue_due, maybe_enqueue_scheduled_job,
}
use topo.Controller.Schedules.Bounds.{SchedulesOk}

-- Whether the collector has a schedule that is due, with no job of its type outstanding.
abbrev pub is_due : Server → String → Clock → Option Schedule → Bool
is_due s c clock none = false
is_due s c clock (some sched) =
    not (ltb clock.tested sched.next_run_at) && not (has_outstanding s.jobs c sched.job_type)

-- The job that a schedule makes.
abbrev pub scheduled_record : String → Schedule → Clock → JobRecord
scheduled_record c sched clock = record {
  collector_id = c;
  job_type = sched.job_type;
  status = pending;
  created_at = clock.enqueued;
  completed_at = 0;
  result_error = "";
}

-- The check, by what the code tests.
abbrev pub CheckSpec : Server → String → Clock → Option String → Server → Type 0
CheckSpec s c clock random t =
    ((is_due s c clock (get_schedule s.memory c) ≡ false) ⊎ (random ≡ none)) × (t ≡ s)
    ⊎ ((sched : Schedule) × (id : String) × (get_schedule s.memory c ≡ some sched)
        × (random ≡ some id)
        × (is_due s c clock (some sched) ≡ true)
        × (t.jobs.jobs ≡ store s.jobs.jobs id (scheduled_record c sched clock))
        × (get_schedule t.memory c ≡ some (advance sched clock)))

enqueue_due-CheckSpec :
    (s : Server) (c : String) (clock : Clock) (random : Option String) (o : Option Schedule)
    → SchedulesOk s.memory.schedules
    → get_schedule s.memory c ≡ o
    → CheckSpec s c clock random (enqueue_due s c clock random o)
unfolding enqueue_due after_enqueue enqueue get_schedule upsert_schedule
enqueue_due-CheckSpec s c clock random none h e = inl (inl (rw e refl), refl)
enqueue_due-CheckSpec s c clock none (some sched) h e =
    elim (Bool-cases (ltb clock.tested sched.next_run_at)) [
      | inl early ↦ rw early (inl (inr refl, refl))
      | inr due ↦ elim (Bool-cases (has_outstanding s.jobs c sched.job_type)) [
        | inl busy ↦ rw (due, busy) (inl (inr refl, refl))
        | inr idle ↦ rw (due, idle) (inl (inr refl, refl))
      ]
    ]
enqueue_due-CheckSpec s c clock (some id) (some sched) h e =
    elim (Bool-cases (ltb clock.tested sched.next_run_at)) [
      | inl early ↦ rw (early, e) (inl (inl (rw early refl), refl))
      | inr due ↦ elim (Bool-cases (has_outstanding s.jobs c sched.job_type)) [
        | inl busy ↦ rw (due, busy, e) (inl (inl (rw (due, busy) refl), refl))
        | inr idle ↦
            rw (due, idle)
              (inr (
                sched,
                id,
                e,
                refl,
                rw (due, idle) refl,
                refl,
                rw ((h c sched e).0) (lookup-store_self s.memory.schedules c _),
              ))
      ]
    ]

pub maybe_enqueue-CheckSpec :
    (s : Server) (c : String) (clock : Clock) (random : Option String)
    → SchedulesOk s.memory.schedules
    → CheckSpec s c clock random (maybe_enqueue_scheduled_job s c clock random)
unfolding maybe_enqueue_scheduled_job
maybe_enqueue-CheckSpec s c clock random h =
    enqueue_due-CheckSpec s c clock random (get_schedule s.memory c) h refl

-- The collector has a job of the type that waits for its poll or for its result.
abbrev pub OutstandingIn : String → String → List (String × JobRecord) → Type 0
OutstandingIn c job_type [] = ⊥
OutstandingIn c job_type ((id, r) ∷ rest) =
    ((r.collector_id ≡ c)
      × (r.job_type ≡ job_type)
      × ((r.status ≡ pending) ⊎ (r.status ≡ dispatched)))
    ⊎ OutstandingIn c job_type rest

-- The outcome of the check, with the numbers of the schedule: without a schedule, before its next
-- run, with a job of its type outstanding, or without an ID, nothing changes. Else the collector
-- has one new pending job under the generated ID, and its schedule, otherwise as it was, is to run
-- again an interval of seconds, of 10^9 nanoseconds each, after the time of the check.
abbrev pub DueSpec : Server → String → Clock → Option String → Server → Type 0
DueSpec s c clock random t =
    ((get_schedule s.memory c ≡ none)
        ⊎ ((sched : Schedule) × (get_schedule s.memory c ≡ some sched)
            × ((clock.tested < sched.next_run_at)
                ⊎ OutstandingIn c sched.job_type s.jobs.jobs
                ⊎ (random ≡ none))))
      × (t ≡ s)
    ⊎ ((sched : Schedule) × (id : String) × (get_schedule s.memory c ≡ some sched)
        × (random ≡ some id)
        × (sched.next_run_at ≤ clock.tested)
        × (¬ OutstandingIn c sched.job_type s.jobs.jobs)
        × (t.jobs.jobs
            ≡ store s.jobs.jobs id (record {
              collector_id = c;
              job_type = sched.job_type;
              status = pending;
              created_at = clock.enqueued;
              completed_at = 0;
              result_error = "";
            }))
        × (get_schedule t.memory c
            ≡ some (record {
              collector_id = sched.collector_id;
              job_type = sched.job_type;
              interval_seconds = sched.interval_seconds;
              next_run_at = clock.advanced + sched.interval_seconds * 1000000000;
              created_at = sched.created_at;
              updated_at = clock.updated;
            })))

waiting :
    (status : JobState)
    → is_pending status || is_dispatched status ≡ true
    → (status ≡ pending) ⊎ (status ≡ dispatched)
waiting pending h = inl refl
waiting dispatched h = inr refl
waiting succeeded h = ground arith
waiting failed h = ground arith

outstanding_found :
    (c job_type : String) (jobs : List (String × JobRecord))
    → any (is_outstanding c job_type) jobs ≡ true
    → OutstandingIn c job_type jobs
outstanding_found c job_type [] h = ground arith
outstanding_found c job_type ((id, r) ∷ rest) h =
    elim (Bool-cases (is_outstanding c job_type (id, r))) [
      | inl found ↦
          let mine : r.collector_id ≡ c = ground (arith, eq_iff r.collector_id c) in
          let same : r.job_type ≡ job_type = ground (arith, eq_iff r.job_type job_type) in
          inl (mine, same, waiting r.status (ground arith))
      | inr other ↦ inr (outstanding_found c job_type rest (ground arith))
    ]

none_outstanding :
    (c job_type : String) (jobs : List (String × JobRecord))
    → any (is_outstanding c job_type) jobs ≡ false
    → ¬ OutstandingIn c job_type jobs
none_outstanding c job_type [] h o = o
none_outstanding c job_type ((id, r) ∷ rest) h (inl (mine, same, waits)) =
    let own = eq_iff r.collector_id c in
    let type = eq_iff r.job_type job_type in
    elim waits [
      | inl p ↦ ground (arith, ap is_pending p)
      | inr d ↦ ground (arith, ap is_dispatched d)
    ]
none_outstanding c job_type ((id, r) ∷ rest) h (inr o) =
    none_outstanding c job_type rest (ground arith) o

refused :
    (s : Server) (c : String) (clock : Clock) (random : Option String) (t : Server)
    (o : Option Schedule)
    → get_schedule s.memory c ≡ o
    → is_due s c clock o ≡ false
    → t ≡ s
    → DueSpec s c clock random t
unfolding has_outstanding
refused s c clock random t none e n same = inl (inl e, same)
refused s c clock random t (some sched) e n same =
    elim (Bool-cases (ltb clock.tested sched.next_run_at)) [
      | inl early ↦ inl (inr (sched, e, inl (ground arith)), same)
      | inr late ↦ inl (
        inr (sched, e, inr (inl (outstanding_found c sched.job_type s.jobs.jobs (ground arith)))),
        same,
      )
    ]

without_id :
    (s : Server) (c : String) (clock : Clock) (random : Option String) (t : Server)
    (o : Option Schedule)
    → get_schedule s.memory c ≡ o
    → random ≡ none
    → t ≡ s
    → DueSpec s c clock random t
without_id s c clock random t none e n same = inl (inl e, same)
without_id s c clock random t (some sched) e n same = inl (inr (sched, e, inr (inr n)), same)

-- A poll's check of the schedule does exactly what the schedule asks for, where schedules are in
-- order: one job when it is due and none is outstanding, and otherwise nothing.
pub maybe_enqueue-DueSpec :
    (s : Server) (c : String) (clock : Clock) (random : Option String)
    → SchedulesOk s.memory.schedules
    → DueSpec s c clock random (maybe_enqueue_scheduled_job s c clock random)
unfolding has_outstanding
maybe_enqueue-DueSpec s c clock random h = elim (maybe_enqueue-CheckSpec s c clock random h) [
  | inl (inl not_due, same) ↦ refused s c clock random _ (get_schedule s.memory c) refl not_due same
  | inl (inr no_id, same) ↦ without_id s c clock random _ (get_schedule s.memory c) refl no_id same
  | inr (sched, id, found, random_id, due, jobs, next) ↦ inr (
    sched,
    id,
    found,
    random_id,
    ground (arith, due),
    none_outstanding c sched.job_type s.jobs.jobs (ground (arith, due)),
    jobs,
    next,
  )
]

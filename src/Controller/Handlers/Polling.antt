-- ===== src/Controller/Handlers/Polling.antt =====
-- server.go: what a poll delivers for a schedule.
use topo.Prelude.{
  ℕ, ◌≡◌, true, String, eq_iff, some, List, [], arith, Result, ok, err, store, lookup-store_self,
  Distinct, store-Distinct, inl, inr,
}
use topo.Enrollment.Ids.{valid_collector_id}
use topo.Store.Model.{Schedule}
use topo.Store.Memory.{get_schedule}
use topo.Controller.Jobs.{Job, poll}
use topo.Controller.Jobs.Delivery.{times, poll-times}
use topo.Controller.Server.{Server}
use topo.Controller.Schedules.{Clock, maybe_enqueue_scheduled_job}
use topo.Controller.Schedules.Bounds.{SchedulesOk}
use topo.Controller.Schedules.Due.{is_due, CheckSpec, scheduled_record, maybe_enqueue-CheckSpec}
use topo.Controller.Handlers.{poll_jobs}

-- The jobs of a reply.
abbrev pub delivered : Result ℕ (List Job) → List Job
delivered (err code) = []
delivered (ok jobs) = jobs

due_times :
    (s t : Server) (c id : String) (clock : Clock) (sched : Schedule)
    → Distinct s.jobs.jobs
    → t.jobs.jobs ≡ store s.jobs.jobs id (scheduled_record c sched clock)
    → times id (poll t.jobs c).1 ≡ 1
due_times s t c id clock sched d e =
    rw
      (
        poll-times t.jobs c id (rw e (store-Distinct s.jobs.jobs id _ d)),
        e,
        lookup-store_self s.jobs.jobs id (scheduled_record c sched clock),
      )
      (ground (arith, eq_iff c c))

due_delivers :
    (s t : Server) (c id : String) (clock : Clock) (sched : Schedule)
    → Distinct s.jobs.jobs
    → get_schedule s.memory c ≡ some sched
    → is_due s c clock (some sched) ≡ true
    → CheckSpec s c clock (some id) t
    → times id (poll t.jobs c).1 ≡ 1
due_delivers s t c id clock sched d e due (inl (inl not_due, same)) =
    ground (arith, rw e at not_due)
due_delivers s t c id clock sched d e due (inl (inr no_id, same)) = ground arith
due_delivers s t c id clock sched d e due (inr (sched', id', e', i, due', jobs, next)) =
    let same_id : id ≡ id' = cc in rw same_id (due_times s t c id' clock sched' d jobs)

-- A poll by a collector whose schedule is due, with no job of its type outstanding, returns the
-- scheduled job once, where the random source gives it an ID, the collector ID is valid, the
-- schedules are in order, and the job map has each ID once.
pub poll_jobs-delivers :
    (s : Server) (c id : String) (clock : Clock) (sched : Schedule)
    → valid_collector_id c ≡ true
    → SchedulesOk s.memory.schedules
    → Distinct s.jobs.jobs
    → get_schedule s.memory c ≡ some sched
    → is_due s c clock (some sched) ≡ true
    → times id (delivered (poll_jobs s (some c) c clock (some id)).1) ≡ 1
unfolding poll_jobs
poll_jobs-delivers s c id clock sched v h d e due = rw v (
    due_delivers s (maybe_enqueue_scheduled_job s c clock (some id)) c id clock sched d e due
      (maybe_enqueue-CheckSpec s c clock (some id) h))

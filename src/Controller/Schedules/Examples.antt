-- ===== src/Controller/Schedules/Examples.antt =====
-- A collector with a schedule that is due, and the theorems at it.
use topo.Prelude.{◌≡◌, refl, arith, eq_iff, true, some, [], ◌∷◌, lookup, pos}
use topo.Audit.{AuditText}
use topo.Enrollment.Ids.{valid_collector_id, is_space, is_control}
use topo.Store.Model.{Schedule}
use topo.Store.Memory.{new_memory, get_schedule}
use topo.Controller.Jobs.{has_outstanding}
use topo.Controller.Jobs.Delivery.{times}
use topo.Controller.Heartbeats.{new_heartbeat_store, list_collectors}
use topo.Controller.Heartbeats.Liveness.{record_all, record_all-shown, shown}
use topo.Controller.Server.{Server}
use topo.Controller.Schedules.{ScheduleRequest, Clock, maybe_enqueue_scheduled_job}
use topo.Controller.Schedules.Bounds.{SchedulesOk, creates, removes, polled, run, run-SchedulesOk}
use topo.Controller.Schedules.Due.{DueSpec, is_due, maybe_enqueue-DueSpec}
use topo.Controller.Handlers.{poll_jobs}
use topo.Controller.Handlers.Polling.{delivered, poll_jobs-delivers}

abbrev copying : AuditText
copying = record { sha256_hex = λ a. a; format_int = λ n. n ∷ []; format_time = λ n. n ∷ [] }

abbrev new_server : Server
new_server = record {
  memory = new_memory;
  jobs = record { jobs = [] };
  heartbeats = record { records = []; stale_after = 180 };
}

no_schedules : SchedulesOk []
unfolding lookup
no_schedules c sched e = ground arith

abbrev clock : Clock
clock = record { tested = 50; enqueued = 51; advanced = 52; updated = 53 }

abbrev request : ScheduleRequest
request = record { collector_id = "c1"; job_type = ""; interval_seconds = pos 60 }

run-SchedulesOk_example :
    SchedulesOk
      (run copying new_server (
        creates (some request) 7 8
        ∷ polled "c1" clock (some "j1")
        ∷ removes "c2" 9
        ∷ [])).memory.schedules
run-SchedulesOk_example =
    run-SchedulesOk copying new_server
      (creates (some request) 7 8 ∷ polled "c1" clock (some "j1") ∷ removes "c2" 9 ∷ [])
      no_schedules

abbrev hourly : Schedule
hourly = record {
  collector_id = "c1";
  job_type = "discover";
  interval_seconds = 3600;
  next_run_at = 40;
  created_at = 40;
  updated_at = 40;
}

abbrev scheduled : Server
scheduled = record new_server { memory = record new_memory { schedules = ("c1", hourly) ∷ [] } }

one_schedule : SchedulesOk (("c1", hourly) ∷ [])
unfolding lookup
one_schedule c sched e = ground (arith, eq_iff c "c1")

maybe_enqueue-DueSpec_example :
    DueSpec scheduled "c1" clock
      (some "j1")
      (maybe_enqueue_scheduled_job scheduled "c1" clock (some "j1"))
maybe_enqueue-DueSpec_example = maybe_enqueue-DueSpec scheduled "c1" clock (some "j1") one_schedule

c1_is_due : is_due scheduled "c1" clock (some hourly) ≡ true
unfolding has_outstanding
c1_is_due = refl

c1_valid : valid_collector_id "c1" ≡ true
unfolding valid_collector_id is_space is_control
c1_valid = refl

c1_schedule : get_schedule scheduled.memory "c1" ≡ some hourly
unfolding get_schedule lookup
c1_schedule = refl

poll_jobs-delivers_example :
    times "j1" (delivered (poll_jobs scheduled (some "c1") "c1" clock (some "j1")).1) ≡ 1
poll_jobs-delivers_example =
    poll_jobs-delivers scheduled "c1" "j1" clock hourly c1_valid one_schedule tt c1_schedule
      c1_is_due

record_all-shown_example :
    shown "c1" true (
      list_collectors
        (record_all
          (new_heartbeat_store 180)
          (("c1", "dc", 10) ∷ ("c2", "dc", 15) ∷ ("c1", "dc", 20) ∷ []))
        100)
    ≡ 1
record_all-shown_example =
    record_all-shown 180 100 (("c1", "dc", 10) ∷ ("c2", "dc", 15) ∷ ("c1", "dc", 20) ∷ []) "c1" true

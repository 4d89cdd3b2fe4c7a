-- ===== src/Controller/Jobs/Examples.antt =====
-- A store with two collectors' jobs, and the theorems at it.
use topo.Prelude.{
  ◌≡◌, ◌≢◌, refl, true, none, some, [], ◌∷◌, to_count, lookup, store, sort_slice, insert_sorted, ok,
  err,
}
use topo.Controller.Jobs.{
  JobStore, JobResult, enqueue, poll, poll_loop, result, new_job_store, is_polled,
  not_awaiting_result,
}
use topo.Controller.Jobs.Lifecycle.{
  Advances, step, here, next, polls, step-Advances, ReportSpec, result-ReportSpec, result_once,
}
use topo.Controller.Jobs.Delivery.{times, poll-times}

abbrev discovered : JobResult
discovered = record { success = true; error = "" }

-- Two jobs for one collector, the later one first, and one for another.
abbrev queued : JobStore
queued =
    (enqueue
      (enqueue (enqueue new_job_store (some "b") 9 "east" "discover").0 (some "a") 5 "east"
        "discover").0
      (some "c") 7 "west" "discover").0

polled_jobs :
    (poll queued "east").1
    ≡ record { job_id = "a"; collector_id = "east"; job_type = "discover"; created_at = 5 }
      ∷ record { job_id = "b"; collector_id = "east"; job_type = "discover"; created_at = 9 }
      ∷ []
unfolding poll poll_loop enqueue new_job_store sort_slice insert_sorted store
polled_jobs = refl

abbrev after_poll : JobStore
after_poll = (poll queued "east").0

reported_early : (result queued "a" "east" discovered 20).1 ≡ err not_awaiting_result
unfolding result enqueue new_job_store store lookup
reported_early = refl

reported : (result after_poll "a" "east" discovered 20).1 ≡ ok tt
unfolding result poll poll_loop enqueue new_job_store store lookup
reported = refl

step-Advances_example :
    Advances (lookup queued.jobs "a") (lookup (step queued (polls "east")).jobs "a")
step-Advances_example = step-Advances queued (polls "east") "a" tt

result-ReportSpec_example :
    ReportSpec after_poll "a" "east" discovered 20 (result after_poll "a" "east" discovered 20)
result-ReportSpec_example = result-ReportSpec after_poll "a" "east" discovered 20

result_once_example :
    (result
      (step (result after_poll "a" "east" discovered 20).0 (polls "east"))
      "a"
      "east"
      discovered
      30).1
    ≢ ok tt
result_once_example =
    result_once after_poll "a" "east" "east" discovered discovered 20 30 reported
      (next (polls "east") here tt)

poll-times_example :
    times "b" (poll queued "east").1
    ≡ elim (lookup queued.jobs "b") [ none ↦ 0 | some r ↦ to_count (is_polled "east" r) ]
unfolding enqueue new_job_store store lookup
poll-times_example = poll-times queued "east" "b" (refl, (refl, (refl, tt)))

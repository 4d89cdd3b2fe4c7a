-- ===== src/Controller/Jobs.antt =====
-- internal/controller/jobs.go: the job store. Times are nanoseconds; `time.Now` and the random job
-- ID are arguments, the ID being `none` where `rand.Read` fails.
pub mod Lifecycle
pub mod Delivery
mod Examples
use topo.Prelude.{
  ℕ, ◌≡◌, Bool, true, false, ◌&&◌, ◌||◌, not, String, str_eq, Option, none, some, List, [], ◌∷◌,
  any, ltb, if◌then◌else◌, GoMap, lookup, store, sort_slice, Result, ok, err,
}

pub data JobState : Type 0 where
  pending dispatched succeeded failed : JobState

pub record JobRecord : Type 0 where
  pub collector_id : String
  pub job_type : String
  pub status : JobState
  pub created_at : ℕ
  -- The zero time until a result is recorded.
  pub completed_at : ℕ
  pub result_error : String

-- model.Job
pub record Job : Type 0 where
  pub job_id : String
  pub collector_id : String
  pub job_type : String
  pub created_at : ℕ

-- model.JobResult, the fields that the store reads.
pub record JobResult : Type 0 where
  pub success : Bool
  pub error : String

-- model.JobStatus
pub record JobStatus : Type 0 where
  pub job_id : String
  pub collector_id : String
  pub job_type : String
  pub status : JobState
  pub created_at : ℕ
  pub completed_at : ℕ
  pub error : String

pub data JobError : Type 0 where
  id_generation_failed job_not_found other_collector not_awaiting_result : JobError

pub record JobStore : Type 0 where
  pub jobs : GoMap JobRecord

unfoldable pub new_job_store : JobStore
new_job_store = record { jobs = [] }

unfoldable pub enqueue :
    JobStore → Option String → ℕ → String → String → JobStore × Result JobError Job
enqueue s none now collector job_type = (s, err id_generation_failed)
enqueue s (some id) now collector job_type = (
  record s {
    jobs = store s.jobs id (record {
      collector_id = collector;
      job_type = job_type;
      status = pending;
      created_at = now;
      completed_at = 0;
      result_error = "";
    });
  },
  ok (record { job_id = id; collector_id = collector; job_type = job_type; created_at = now }),
)

abbrev pub is_pending : JobState → Bool
is_pending pending = true
is_pending _ = false

abbrev pub is_dispatched : JobState → Bool
is_dispatched dispatched = true
is_dispatched _ = false

-- Whether a poll of the collector takes the job.
abbrev pub is_polled : String → JobRecord → Bool
is_polled collector r = not (not (str_eq r.collector_id collector) || not (is_pending r.status))

abbrev pub job_of : String → JobRecord → Job
job_of id r = record {
  job_id = id;
  collector_id = r.collector_id;
  job_type = r.job_type;
  created_at = r.created_at;
}

-- The loop over the map: the jobs after it, and `out`.
unfoldable pub poll_loop : GoMap JobRecord → String → GoMap JobRecord × List Job
poll_loop [] collector = ([], [])
poll_loop ((id, r) ∷ rest) collector =
    let (jobs, out) = poll_loop rest collector in
    if is_polled collector r
    then ((id, record r { status = dispatched }) ∷ jobs, job_of id r ∷ out)
    else ((id, r) ∷ jobs, out)

-- `out[i].CreatedAt.Before(out[j].CreatedAt)`
abbrev pub created_before : Job → Job → Bool
created_before a b = ltb a.created_at b.created_at

unfoldable pub poll : JobStore → String → JobStore × List Job
poll s collector =
    let (jobs, out) = poll_loop s.jobs collector in
    (record s { jobs = jobs }, sort_slice created_before out)

record_result :
    JobStore
    → String
    → String
    → JobResult
    → ℕ
    → Option JobRecord
    → JobStore × Result JobError (Unit {0})
record_result s id collector outcome now none = (s, err job_not_found)
record_result s id collector outcome now (some r) =
    if not (str_eq r.collector_id collector)
    then (s, err other_collector)
    else if not (is_dispatched r.status)
    then (s, err not_awaiting_result)
    else (
      record s {
        jobs = store s.jobs id (record r {
          status = if outcome.success then succeeded else failed;
          completed_at = now;
          result_error = outcome.error;
        });
      },
      ok tt,
    )

-- `Result`
unfoldable pub result :
    JobStore → String → String → JobResult → ℕ → JobStore × Result JobError (Unit {0})
unfolding record_result
result s id collector outcome now = record_result s id collector outcome now (lookup s.jobs id)

abbrev pub is_outstanding : String → String → String × JobRecord → Bool
is_outstanding collector job_type (id, r) =
    str_eq r.collector_id collector
    && str_eq r.job_type job_type
    && (is_pending r.status || is_dispatched r.status)

unfoldable pub has_outstanding : JobStore → String → String → Bool
has_outstanding s collector job_type = any (is_outstanding collector job_type) s.jobs

status_of : String → Option JobRecord → Result JobError JobStatus
status_of id none = err job_not_found
status_of id (some r) = ok (record {
  job_id = id;
  collector_id = r.collector_id;
  job_type = r.job_type;
  status = r.status;
  created_at = r.created_at;
  completed_at = r.completed_at;
  error = r.result_error;
})

-- `Status`
unfoldable pub status : JobStore → String → Result JobError JobStatus
unfolding status_of
status s id = status_of id (lookup s.jobs id)

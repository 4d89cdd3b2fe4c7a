-- ===== src/Relay/Cycle.antt =====
-- internal/relay/run.go: the cycle of the relay. What the world answers is a function of how many
-- calls were made before, so that it may answer each call differently.
pub mod Steps
pub mod Drained
pub mod Retained
mod Examples
use topo.Prelude.{
  ℕ, zero, suc, ◌+◌, ◌-◌, ◌≡◌, Bool, true, false, not, ◌&&◌, ◌||◌, String, str_eq, Option, none,
  some, List, [], ◌∷◌, ◌++◌, length, ltb, leb, ◌==◌, if◌then◌else◌, codes, GoMap, lookup, Result,
  ok, err,
}
use topo.Audit.{Text}
use topo.Store.Model.{ObservationEnvelope}
use topo.Relay.Spool.{
  RelayJob, PendingDelivery, SpoolText, Spool, SpoolError, Failure, WriteEnd, enqueue_delivery,
  replace_delivery, pending_names, remove_entry,
}

-- JobResult of contract.go, without its constant schema version.
pub record RelayResult : Type 0 where
  pub job_id : String
  pub relay_id : String
  pub profile_id : String
  pub success : Bool
  pub started_at : ℕ
  pub completed_at : ℕ
  pub observation_id : String
  pub assets : ℕ
  pub relationships : ℕ
  pub collection_errors : ℕ
  pub error : Text

-- What `PublishBatch` answers: no error, or one that is retryable or not, with its text.
pub data PublishOutcome : Type 0 where
  accepted : PublishOutcome
  refused : Bool → Text → PublishOutcome

-- The control plane, the executor, the publisher, the clock and the disk, at each call.
pub record Outside : Type 0 where
  pub poll : ℕ → Option (List RelayJob)
  pub report : ℕ → RelayResult → Bool
  pub execute : ℕ → RelayJob → Result Text ObservationEnvelope
  pub publish : ℕ → ObservationEnvelope → PublishOutcome
  pub clock : ℕ → ℕ
  pub listed : ℕ → Bool
  pub readable : ℕ → String → Bool
  pub write_end : ℕ → WriteEnd
  pub removed : ℕ → Bool
  -- The text of the error that says the result was not retained.
  pub not_retained : SpoolError → Text
  -- The text of the error of a job that is not valid.
  pub invalid_job : RelayJob → Text

pub record Relay : Type 0 where
  pub relay_id : String
  pub spool : Spool
  -- How many calls were made.
  pub calls : ℕ
  -- The results that the control plane has acknowledged, oldest first.
  pub reported : List RelayResult
  -- How often the control plane was asked for jobs.
  pub polls : ℕ

abbrev pub max_publish_attempts : ℕ
max_publish_attempts = 3

abbrev pub max_result_error_bytes : ℕ
max_result_error_bytes = 4096

-- `value[:limit]`
abbrev take : ℕ → Text → Text
take zero bs = []
take (suc n) [] = []
take (suc n) (b ∷ bs) = b ∷ take n bs

unfoldable pub truncate : Text → ℕ → Text
truncate value limit = if leb (length value) limit then value else take limit value ++ codes "..."

abbrev pub is_empty {ℓ} : {A : Type ℓ} → List A → Bool
is_empty [] = true
is_empty (x ∷ xs) = false

abbrev pub is_some {ℓ} : {A : Type ℓ} → Option A → Bool
is_some none = false
is_some (some x) = true

-- The error and the success of a result.
abbrev pub result_error : PendingDelivery → Option Text → Text
result_error d (some override) = truncate override max_result_error_bytes
result_error d none =
    if not (is_empty d.discovery_error)
    then d.discovery_error
    else if not (is_empty d.publication_error)
    then d.publication_error
    else if d.published
    then []
    else codes "observation was not published"

abbrev pub result_success : PendingDelivery → Option Text → Bool
result_success d (some override) = false
result_success d none = is_empty d.discovery_error && is_empty d.publication_error && d.published

abbrev observation_count : (ObservationEnvelope → ℕ) → Option ObservationEnvelope → ℕ
observation_count f none = 0
observation_count f (some o) = f o

abbrev observation_name : Option ObservationEnvelope → String
observation_name none = ""
observation_name (some o) = o.observation_id

unfoldable pub result_for : PendingDelivery → Option Text → RelayResult
result_for d override = record {
  job_id = d.job.job_id;
  relay_id = d.relay_id;
  profile_id = d.job.profile_id;
  success = result_success d override;
  started_at = d.started_at;
  completed_at = d.completed_at;
  observation_id = observation_name d.observation;
  assets = observation_count (λ o. length o.assets) d.observation;
  relationships = observation_count (λ o. length o.relationships) d.observation;
  collection_errors = observation_count (λ o. length o.errors) d.observation;
  error = result_error d override;
}

-- The delivery after an attempt to publish it.
unfoldable pub attempted : PendingDelivery → PublishOutcome → PendingDelivery
attempted d accepted = record d { publish_attempts = d.publish_attempts + 1; published = true }
attempted d (refused retryable message) =
    if not retryable || leb max_publish_attempts (d.publish_attempts + 1)
    then record d {
      publish_attempts = d.publish_attempts + 1;
      publication_error = truncate message max_result_error_bytes;
    }
    else record d { publish_attempts = d.publish_attempts + 1 }

abbrev pub is_refused : PublishOutcome → Bool
is_refused accepted = false
is_refused (refused retryable message) = true

abbrev pub called : Relay → Relay
called r = record r { calls = r.calls + 1 }

module _ (text : SpoolText) (world : Outside) where
  -- The new state of the delivery is on disk; whether `drain` goes on with it.
  after_replace :
      Relay
      → PendingDelivery
      → PublishOutcome
      → Result Failure Spool
      → Relay × Option PendingDelivery
  after_replace r d outcome (err (e, spool)) = (record r { spool = spool }, none)
  after_replace r d outcome (ok spool) = (
    record r { spool = spool },
    if is_refused outcome && is_empty d.publication_error then none else some d,
  )

  publish_one :
      Relay → String → PendingDelivery → ObservationEnvelope → Relay × Option PendingDelivery
  publish_one r name d observation =
      let outcome = world.publish r.calls observation in
      let later = attempted d outcome in
      let next = called (called r) in
      after_replace next later outcome
        (replace_delivery text r.spool name later (world.write_end (r.calls + 1)))

  publish_phase : Relay → String → PendingDelivery → Relay × Option PendingDelivery
  publish_phase r name d = elim d.observation [
    | none ↦ (r, some d)
    | some observation ↦
        if not d.published && is_empty d.publication_error
        then publish_one r name d observation
        else (r, some d)
  ]

  -- The report of a delivery and, once it is acknowledged, the removal of its entry.
  report_phase : Relay → String → Option PendingDelivery → Relay × Bool
  report_phase r name none = (r, false)
  report_phase r name (some d) =
      if not (world.report r.calls (result_for d none))
      then (called r, false)
      else if not (world.removed (r.calls + 1))
      then (record (called (called r)) { reported = r.reported ++ result_for d none ∷ [] }, false)
      else (
        record (called (called r)) {
          reported = r.reported ++ result_for d none ∷ [];
          spool = remove_entry r.spool name;
        },
        true,
      )

  drain_read : Relay → String → Option PendingDelivery → Relay × Bool
  drain_read r name none = (r, false)
  drain_read r name (some d) =
      let (next, state) = publish_phase r name d in report_phase next name state

  -- One entry of the loop of `drain`; whether the loop goes on.
  pub drain_one : Relay → String → Relay × Bool
  drain_one r name =
      if world.readable r.calls name
      then drain_read (called r) name (lookup r.spool.entries name)
      else (called r, false)

  pub drain_entries : Relay → List String → Relay × Bool
  drain_entries r [] = (r, true)
  drain_entries r (name ∷ rest) =
      let (next, goes_on) = drain_one r name in
      let others = drain_entries next rest in if goes_on then others else (next, false)

  pub drain : Relay → Relay × Bool
  drain r =
      if world.listed r.calls
      then drain_entries (called r) (pending_names r.spool)
      else (called r, false)

  -- `len(job.JobID)` and the like are in bytes, of texts in ASCII.
  validate_job : RelayJob → Bool
  validate_job job =
      let id = length (codes job.job_id) in
      let profile = length (codes job.profile_id) in
      not (id == 0 || ltb 128 id)
      && str_eq job.job_type "discover"
      && not (profile == 0 || ltb 128 profile)

  delivery_of : Relay → RelayJob → Result Text ObservationEnvelope → PendingDelivery
  delivery_of r job (err e) = record {
    job = job;
    relay_id = r.relay_id;
    started_at = world.clock r.calls;
    completed_at = world.clock (r.calls + 2);
    observation = none;
    discovery_error = truncate e max_result_error_bytes;
    published = false;
    publish_attempts = 0;
    publication_error = [];
  }
  delivery_of r job (ok observation) = record {
    job = job;
    relay_id = r.relay_id;
    started_at = world.clock r.calls;
    completed_at = world.clock (r.calls + 2);
    observation = some observation;
    discovery_error = [];
    published = false;
    publish_attempts = 0;
    publication_error = [];
  }

  -- A result that was not retained is reported at once, as a failure.
  retained : Relay → PendingDelivery → Result Failure Spool → Relay
  retained r d (err (e, spool)) =
      let result = result_for d (some (world.not_retained e)) in
      record (called r) {
        spool = spool;
        reported = if world.report r.calls result then r.reported ++ result ∷ [] else r.reported;
      }
  retained r d (ok spool) = (drain (record r { spool = spool })).0

  -- The discovery of a job; a job that is not valid is not run.
  discovered : Relay → RelayJob → Result Text ObservationEnvelope
  discovered r job =
      if validate_job job then world.execute (r.calls + 1) job else err (world.invalid_job job)

  run_job : Relay → RelayJob → Relay
  run_job r job =
      let d = delivery_of r job (discovered r job) in
      let next = record r { calls = r.calls + 4 } in
      retained next d (
        enqueue_delivery text r.spool d (world.clock (r.calls + 3)) (world.write_end (r.calls + 3)))

  run_jobs : Relay → List RelayJob → Relay
  run_jobs r [] = r
  run_jobs r (job ∷ rest) = run_jobs (run_job r job) rest

  polled : Relay → Option (List RelayJob) → Relay
  polled r none = r
  polled r (some jobs) = run_jobs r jobs

  pub cycle : Relay → Relay
  cycle r =
      let (next, drained) = drain r in
      if not drained
      then next
      else polled (record (called next) { polls = next.polls + 1 }) (world.poll next.calls)

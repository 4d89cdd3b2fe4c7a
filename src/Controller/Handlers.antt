-- ===== src/Controller/Handlers.antt =====
-- internal/controller/server.go: the handlers of jobs, heartbeats and observations.
pub mod Polling
use topo.Prelude.{
  ℕ, ◌==◌, Bool, true, false, not, ◌||◌, ◌&&◌, String, str_eq, Option, none, some, List, [], ◌∷◌,
  any, if◌then◌else◌, codes, Result, ok, err,
}
use topo.Audit.{AuditText}
use topo.Enrollment.Ids.{valid_collector_id, is_space}
use topo.Store.Model.{Asset, ObservationEnvelope, StoreText}
use topo.Store.Memory.{Memory, save_observation}
use topo.Controller.Jobs.{
  Job, JobStore, JobError, id_generation_failed, job_not_found, other_collector,
  not_awaiting_result, JobResult, JobStatus, enqueue, poll, result, status,
}
use topo.Controller.Heartbeats.{HeartbeatStore, record_heartbeat}
use topo.Controller.Schedules.{job_type_discover, maybe_enqueue_scheduled_job, Clock}
use topo.Controller.Server.{Server, Reply, collector_identity, record_audit}

abbrev pub schema_version : String
schema_version = "v1alpha1"

-- model.JobRequest
pub record JobRequest : Type 0 where
  pub collector_id : String
  pub job_type : String

-- model.HeartbeatRequest
pub record HeartbeatRequest : Type 0 where
  pub schema_version : String
  pub collector_id : String
  pub site_id : String

module _ (text : AuditText) where
  job_created : Server → JobRequest → ℕ → JobStore × Result JobError Job → Server × Reply Job
  job_created s req recorded (jobs, err e) = (record s { jobs = jobs }, err 500)
  job_created s req recorded (jobs, ok job) = (
    record_audit text (record s { jobs = jobs }) recorded "job_created" "api-key"
        ((codes "collector_id", codes req.collector_id)
          ∷ (codes "job_id", codes job.job_id)
          ∷ (codes "job_type", codes req.job_type)
          ∷ []),
    ok job,
  )

  -- A body that does not decode is `none`.
  unfoldable pub create_job :
      Server → Option JobRequest → Option String → ℕ → ℕ → Server × Reply Job
  unfolding job_created
  create_job s none random now recorded = (s, err 400)
  create_job s (some req) random now recorded =
      if not (valid_collector_id req.collector_id)
      then (s, err 400)
      else if not (str_eq req.job_type job_type_discover)
      then (s, err 400)
      else job_created s req recorded (enqueue s.jobs random now req.collector_id req.job_type)

-- The identity of the certificate, the query parameter, the clock and the random source.
unfoldable pub poll_jobs :
    Server → Option String → String → Clock → Option String → Server × Reply (List Job)
poll_jobs s identity collector_id clock random =
    let id = collector_identity identity collector_id in
    let due = maybe_enqueue_scheduled_job s id clock random in
    let (jobs, out) = poll due.jobs id in
    if not (valid_collector_id id) then (s, err 400) else (record due { jobs = jobs }, ok out)

status_reply : Result JobError JobStatus → Reply JobStatus
status_reply (err e) = err 404
status_reply (ok s) = ok s

unfoldable pub job_status : Server → String → Reply JobStatus
unfolding status_reply
job_status s id = status_reply (status s.jobs id)

abbrev pub result_code : JobError → ℕ
result_code job_not_found = 404
result_code _ = 400

result_reply : Server → JobStore × Result JobError (Unit {0}) → Server × Reply (Unit {0})
result_reply s (jobs, err e) = (record s { jobs = jobs }, err (result_code e))
result_reply s (jobs, ok u) = (record s { jobs = jobs }, ok tt)

-- The job of the path, and the collector that the body names with its outcome.
unfoldable pub report_job_result :
    Server → Option String → String → Option (String × JobResult) → ℕ → Server × Reply (Unit {0})
unfolding result_reply
report_job_result s identity id none now = (s, err 400)
report_job_result s identity id (some (collector_id, outcome)) now =
    let collector = collector_identity identity collector_id in
    if not (valid_collector_id collector)
    then (s, err 400)
    else result_reply s (result s.jobs id collector outcome now)

unfoldable pub heartbeat :
    Server → Option String → Option HeartbeatRequest → ℕ → Server × Reply (Unit {0})
heartbeat s identity none now = (s, err 400)
heartbeat s identity (some req) now =
    let collector = collector_identity identity req.collector_id in
    if not (str_eq req.schema_version schema_version)
    then (s, err 400)
    else if not (valid_collector_id collector)
    then (s, err 400)
    else (record s { heartbeats = record_heartbeat s.heartbeats collector req.site_id now }, ok tt)

-- An asset without its type or its native ID.
abbrev pub is_incomplete : Asset → Bool
is_incomplete a = str_eq a.asset_type "" || str_eq a.native_id ""

-- The zero time is 0, and a text of spaces alone is empty once trimmed.
unfoldable pub validate_observation : ObservationEnvelope → Bool
validate_observation e =
    if not (str_eq e.schema_version schema_version)
    then false
    else if not (any (λ c. not (is_space c)) (codes e.observation_id))
    then false
    else if e.observed_at == 0
    then false
    else not (any is_incomplete e.assets)

-- The reply is the ID of the observation.
unfoldable pub ingest :
    StoreText → Server → Option String → Option ObservationEnvelope → Server × Reply String
ingest text s identity none = (s, err 400)
ingest text s identity (some body) =
    let e = record body { collector_id = collector_identity identity body.collector_id } in
    if not (validate_observation e)
    then (s, err 422)
    else (record s { memory = save_observation text s.memory e }, ok e.observation_id)

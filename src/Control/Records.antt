-- ===== src/Control/Records.antt =====
-- server.go: the records of the control plane. Each map is by the ID of its records, which they
-- do not repeat. Identifiers, SHA-256, JSON and the publisher's preview are the parameter
-- `ControlText`; the clock and the random tokens are arguments. A delivery is kept without the
-- operations that it lists for each item.
use topo.Prelude.{ℕ, Bool, String, Option, List, GoMap}
use topo.Worker.Plan.{TargetPartition}
use topo.Store.Model.{ObservationEnvelope}

pub data TaskState : Type 0 where
  ready leased running results_received complete failed cancelled : TaskState

pub data RunState : Type 0 where
  ready running cancelling complete failed cancelled : RunState

pub record WorkerRecord : Type 0 where
  pub boot_id : String
  pub worker_pool : String
  pub site_id : String
  pub version : String
  pub capabilities : List String
  pub policy_digest : String
  pub max_concurrency : ℕ
  pub current_leases : ℕ
  pub last_heartbeat : ℕ

pub record RunRecord : Type 0 where
  pub trigger : String
  pub state : RunState
  pub task_ids : List String
  pub started_at : ℕ
  pub completed_at : Option ℕ
  pub assets : ℕ
  pub relationships : ℕ
  pub collection_errors : ℕ
  pub attempts : ℕ
  pub error : String

pub record TaskRecord : Type 0 where
  pub run_id : String
  pub worker_pool : String
  pub operation : String
  pub profile_id : String
  pub profile_revision : ℕ
  pub state : TaskState
  pub attempt : ℕ
  pub attempt_id : String
  pub worker_id : String
  pub boot_id : String
  pub lease_digest : String
  pub lease_expires_at : ℕ
  pub deadline : ℕ
  pub chunk_count : ℕ
  pub target_partition : Option TargetPartition
  pub credential_binding_id : String
  pub cancel_requested : Bool
  pub error : String

-- A payload that is deleted is the empty text.
pub record ResultRecord : Type 0 where
  pub checksum : String
  pub payload : String
  pub created_at : ℕ
  pub processed_at : Option ℕ
  pub terminal : String
  pub deleted : Bool

pub record ScheduleRecord : Type 0 where
  pub worker_pool : String
  pub operation : String
  pub target : String
  pub credential_binding_id : String
  pub interval : ℕ
  pub next_run_at : ℕ
  pub active : Bool

pub record IreDelivery : Type 0 where
  pub run_id : String
  pub task_id : String
  pub attempt_id : String
  pub preflighted : Bool
  pub applied : Bool
  pub no_data : Bool
  pub completed_at : ℕ

pub record CredentialAccess : Type 0 where
  pub task_id : String
  pub attempt_id : String
  pub worker_id : String
  pub outcome : String
  pub reason : String

pub record Config : Type 0 where
  pub lease_duration : ℕ
  pub success_raw_ttl : ℕ
  pub failure_raw_ttl : ℕ
  pub pool_max_leases : ℕ
  pub username : String
  pub password : String

pub record Server : Type 0 where
  pub renew_available : Bool
  pub next_id : ℕ
  pub workers : GoMap WorkerRecord
  pub runs : GoMap RunRecord
  pub tasks : GoMap TaskRecord
  pub results : GoMap ResultRecord
  pub schedules : GoMap ScheduleRecord
  pub items : GoMap String
  pub relations : GoMap String
  pub deliveries : List IreDelivery
  pub credential_log : List CredentialAccess

-- What the preview of a publisher gives: the keys of its items and relations.
pub record IrePayload : Type 0 where
  pub items : List String
  pub relations : List String

pub record ControlText : Type 0 where
  pub run_id : ℕ → String
  pub task_id : ℕ → String
  pub worker_id : ℕ → String
  -- `attempt-%s-%08d`
  pub attempt_id : String → ℕ → String
  pub result_key : String → String → String
  pub sha256_hex : String → String
  -- `json.Unmarshal` into one envelope, and `DecodeJSONLines`.
  pub decode_one : String → Option ObservationEnvelope
  pub decode_lines : String → Option (List ObservationEnvelope)
  pub preview : List ObservationEnvelope → Option IrePayload
  -- The partition of one target, and that of an ordinal among a count.
  pub remote_partition : String → TargetPartition
  pub numbered_partition : ℕ → ℕ → TargetPartition

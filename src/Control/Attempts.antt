-- ===== src/Control/Attempts.antt =====
-- server.go: what a worker asks for and reports under a lease.
use topo.Prelude.{
  ℕ, ◌+◌, ◌==◌, Bool, true, false, not, ◌&&◌, ◌||◌, String, str_eq, codes, Option, none, some, [],
  ◌∷◌, ◌++◌, ltb, if◌then◌else◌, lookup, store,
}
use topo.Enrollment.Ids.{byte_len}
use topo.Control.Records.{TaskState, TaskRecord, ResultRecord, Config, Server, ControlText}
use topo.Control.Leases.{Claim, valid_lease, set_task}
use topo.Control.Runs.{ssh_linux_v1, winrm_windows_v1}

abbrev pub is_remote : String → Bool
is_remote operation = str_eq operation ssh_linux_v1 || str_eq operation winrm_windows_v1

abbrev pub logged : String → Claim → String → String → Server → Server
logged id c outcome reason s = record s {
  credential_log =
      s.credential_log
      ++ (record {
        task_id = id;
        attempt_id = c.attempt_id;
        worker_id = c.worker_id;
        outcome = outcome;
        reason = reason;
      })
        ∷ [];
}

-- Whether the credential is handed out; each request is logged.
unfoldable pub credential_for : Config → String → Claim → Option TaskRecord → Server → Server × Bool
credential_for config id c none s = (logged id c "denied" "lease_not_owned" s, false)
credential_for config id c (some t) s =
    if not (is_remote t.operation)
      || str_eq t.credential_binding_id ""
      || str_eq config.username ""
      || str_eq config.password ""
    then (logged id c "denied" "binding_or_credential_invalid" s, false)
    else (logged id c "allowed" "attempt_bound" s, true)

unfoldable pub credential_for_task :
    ControlText → Config → ℕ → String → Claim → Server → Server × Bool
credential_for_task text config now id c s =
    credential_for config id c (valid_lease text now s id c) s

unfoldable pub renewed : Config → ℕ → TaskRecord → TaskRecord
renewed config now t = record t {
  lease_expires_at =
      if ltb t.deadline (now + config.lease_duration)
      then t.deadline
      else now + config.lease_duration;
  state = TaskState.running;
}

-- The end of the lease and whether the attempt is cancelled.
unfoldable pub renew_task :
    Config → ℕ → String → Option TaskRecord → Server → Server × Option (ℕ × Bool)
renew_task config now id none s = (s, none)
renew_task config now id (some t) s =
    if t.cancel_requested then (s, some (t.lease_expires_at, true)) else (
      set_task s id (renewed config now t),
      some ((renewed config now t).lease_expires_at, false),
    )

unfoldable pub renew :
    ControlText → Config → ℕ → String → Claim → Server → Server × Option (ℕ × Bool)
renew text config now id c s =
    if not s.renew_available
    then (s, none)
    else renew_task config now id (valid_lease text now s id c) s

pub record ChunkRequest : Type 0 where
  pub chunk_number : ℕ
  pub chunk_count : ℕ
  pub checksum : String
  pub observation_json : String

-- A chunk is accepted, for the first time or again.
pub data Accepted : Type 0 where
  created duplicate : Accepted

unfoldable pub store_chunk :
    ℕ
    → String
    → ChunkRequest
    → TaskRecord
    → String
    → Option ResultRecord
    → Server
    → Server × Option Accepted
store_chunk now id request t key (some existing) s =
    if str_eq existing.checksum request.checksum && str_eq existing.payload request.observation_json
    then (s, some duplicate)
    else (s, none)
store_chunk now id request t key none s = (
  record s {
    results = store s.results key (record {
      checksum = request.checksum;
      payload = request.observation_json;
      created_at = now;
      processed_at = none;
      terminal = "";
      deleted = false;
    });
    tasks = store s.tasks id (record t { state = TaskState.results_received; chunk_count = 1 });
  },
  some created,
)

unfoldable pub result_of :
    ControlText
    → ℕ
    → String
    → Claim
    → ChunkRequest
    → Option TaskRecord
    → Server
    → Server × Option Accepted
result_of text now id c request none s = (s, none)
result_of text now id c request (some t) s =
    if t.cancel_requested
    then (s, none)
    else store_chunk now id request t (text.result_key id c.attempt_id)
        (lookup s.results (text.result_key id c.attempt_id)) s

unfoldable pub invalid_chunk : ControlText → ChunkRequest → Bool
invalid_chunk text request =
    not (request.chunk_number == 0)
    || not (request.chunk_count == 1)
    || str_eq request.observation_json ""
    || ltb 1048576 (byte_len (codes request.observation_json))
    || not (str_eq request.checksum (text.sha256_hex request.observation_json))

unfoldable pub result :
    ControlText → ℕ → String → Claim → ChunkRequest → Server → Server × Option Accepted
result text now id c request s =
    if invalid_chunk text request
    then (s, none)
    else result_of text now id c request (valid_lease text now s id c) s

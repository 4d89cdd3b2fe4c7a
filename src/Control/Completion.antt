-- ===== src/Control/Completion.antt =====
-- server.go: the completion of an attempt, and what is delivered of its result.
use topo.Prelude.{
  ℕ, ◌+◌, ◌==◌, Bool, true, false, not, ◌&&◌, ◌||◌, String, str_eq, codes, Option, none, some, List,
  [], ◌∷◌, ◌++◌, length, leb, if◌then◌else◌, GoMap, lookup, store,
}
use topo.Enrollment.Ids.{byte_len}
use topo.Store.Model.{ObservationEnvelope}
use topo.Control.Records.{
  TaskState, TaskRecord, RunRecord, ResultRecord, IreDelivery, Server, ControlText, IrePayload,
}
use topo.Control.Leases.{Claim, valid_lease, refresh_run, set_task}
use topo.Control.Runs.{winrm_windows_v1}
use topo.Control.Attempts.{is_remote}

pub record CompleteRequest : Type 0 where
  pub success : Bool
  -- The code and the message of the failure, where the body has one.
  pub failure : Option (String × String)
  pub chunk_count : ℕ

abbrev pub valid_failure : Option (String × String) → Bool
valid_failure none = false
valid_failure (some (c, message)) = not (str_eq c "") && leb (byte_len (codes message)) 4096

abbrev pub failure_code : Option (String × String) → String
failure_code none = ""
failure_code (some (c, message)) = c

unfoldable pub failed_task : Option (String × String) → TaskRecord → TaskRecord
failed_task failure t =
    if t.cancel_requested || str_eq (failure_code failure) "cancelled"
    then record t { state = TaskState.cancelled; error = "cancelled"; cancel_requested = false }
    else record t {
      state = TaskState.failed;
      error = failure_code failure;
      cancel_requested = false;
    }

-- The result of the attempt is processed, with this end.
unfoldable pub processed : ℕ → String → String → Server → Server
processed now key terminal s = elim (lookup s.results key) [
  | none ↦ s
  | some r ↦ record s {
    results = store s.results key (record r { processed_at = some now; terminal = terminal });
  }
]

abbrev pub with_run : String → (RunRecord → RunRecord) → Server → Server
with_run id change s = elim (lookup s.runs id) [
  | none ↦ s
  | some run ↦ record s { runs = store s.runs id (change run) }
]

abbrev pub delivered : IreDelivery → Server → Server
delivered d s = record s { deliveries = s.deliveries ++ d ∷ [] }

-- The items and relations that are new. Their random IDs are never read, and one token stands for
-- each of them.
unfoldable pub apply_keys : String → GoMap String → List String → GoMap String
apply_keys token all [] = all
apply_keys token all (key ∷ rest) =
    apply_keys token (elim (lookup all key) [ none ↦ store all key token | some _ ↦ all ]) rest

-- `failIRELocked`
unfoldable pub fail_ire : ℕ → String → String → String → TaskRecord → Server → Server
fail_ire now id attempt key t s =
    delivered
      (record {
        run_id = t.run_id;
        task_id = id;
        attempt_id = attempt;
        preflighted = true;
        applied = false;
        no_data = false;
        completed_at = now;
      })
      (processed now key "failed" (
        refresh_run now t.run_id (
          with_run t.run_id (λ run. record run { error = "ire_preflight_failed" })
            (set_task s id
              (record t { state = TaskState.failed; error = "ire_preflight_failed" })))))

-- A remote host about which there is nothing but errors.
abbrev pub is_no_data : String → TaskRecord → ObservationEnvelope → Bool
is_no_data id t e =
    is_remote t.operation
    && str_eq e.schema_version "v1alpha1"
    && str_eq e.plugin
        (if str_eq t.operation winrm_windows_v1 then "winrm-windows" else "ssh-linux")
    && str_eq e.job_id id
    && length e.assets == 0
    && length e.relationships == 0
    && not (length e.errors == 0)

-- The task is complete, with what is counted for its run.
unfoldable pub complete_task :
    ℕ → String → String → TaskRecord → IreDelivery → (RunRecord → RunRecord) → Server → Server
complete_task now id key t d change s = processed now key "complete" (
    refresh_run now t.run_id (
      with_run t.run_id change
        (set_task (delivered d s) id (record t { state = TaskState.complete }))))

unfoldable pub applied_payload :
    ℕ → String → String → String → String → TaskRecord → Option IrePayload → Server → Server × Bool
applied_payload now token id attempt key t none s = (fail_ire now id attempt key t s, false)
applied_payload now token id attempt key t (some payload) s = (
  complete_task now id key t
      (record {
        run_id = t.run_id;
        task_id = id;
        attempt_id = attempt;
        preflighted = true;
        applied = true;
        no_data = false;
        completed_at = now;
      })
      (λ run. record run {
        assets = run.assets + length payload.items;
        relationships = run.relationships + length payload.relations;
      })
      (record s {
        items = apply_keys token s.items payload.items;
        relations = apply_keys token s.relations payload.relations;
      }),
  true,
)

-- `none` is a payload that is no observation.
abbrev pub previewed : ControlText → Option (List ObservationEnvelope) → Option IrePayload
previewed text none = none
previewed text (some envelopes) = text.preview envelopes

-- The result of the attempt, and the envelope where its payload is one.
unfoldable pub complete_payload :
    ControlText
    → ℕ
    → String
    → String
    → String
    → String
    → TaskRecord
    → String
    → Option ObservationEnvelope
    → Server
    → Server × Bool
complete_payload text now token id attempt key t payload none s =
    applied_payload now token id attempt key t (previewed text (text.decode_lines payload)) s
complete_payload text now token id attempt key t payload (some e) s =
    if is_no_data id t e
    then (
      complete_task now id key t
          (record {
            run_id = t.run_id;
            task_id = id;
            attempt_id = attempt;
            preflighted = false;
            applied = false;
            no_data = true;
            completed_at = now;
          })
          (λ run. record run { collection_errors = run.collection_errors + length e.errors }) s,
      true,
    )
    else applied_payload now token id attempt key t (previewed text (text.decode_lines payload)) s

abbrev pub is_received : TaskState → Bool
is_received TaskState.results_received = true
is_received _ = false

abbrev pub payload_of : Option ResultRecord → String
payload_of none = ""
payload_of (some r) = r.payload

-- Whether the completion is answered with success.
unfoldable pub complete_of :
    ControlText
    → ℕ
    → String
    → String
    → Claim
    → CompleteRequest
    → Option TaskRecord
    → Server
    → Server × Bool
complete_of text now token id c request none s = (s, false)
complete_of text now token id c request (some t) s =
    if not request.success
    then (if valid_failure request.failure
        then (refresh_run now t.run_id (set_task s id (failed_task request.failure t)), true)
        else (s, false))
    else if not (request.chunk_count == 1) || not (is_received t.state) || t.cancel_requested
    then (s, false)
    else let key = text.result_key id c.attempt_id in
      let payload = payload_of (lookup s.results key) in
      complete_payload text now token id c.attempt_id key t payload (text.decode_one payload) s

unfoldable pub complete :
    ControlText → ℕ → String → String → Claim → CompleteRequest → Server → Server × Bool
complete text now token id c request s =
    complete_of text now token id c request (valid_lease text now s id c) s

-- ===== src/Worker/Attempt.antt =====
-- internal/worker/run.go: `executeTask`, which runs one attempt and reports its end. What other code
-- answers, and when the attempt or the worker is cancelled, is the record `Course`.
pub mod Reports
use topo.Prelude.{
  ℕ, ◌+◌, ◌*◌, ◌/◌, ◌≡◌, Bool, true, false, not, ◌&&◌, ◌||◌, Option, none, some, List, [], ◌∷◌,
  ◌++◌, leb, ltb, if◌then◌else◌,
}

-- maxControlRequestBytes
abbrev pub max_control_request_bytes : ℕ
max_control_request_bytes = 2 * 1048576

-- Why an execution failed: its context was cancelled, its credential was not resolved, or else.
pub data Failed : Type 0 where
  canceled credential other : Failed

-- What `maintainLease` returns once it is stopped.
pub data LeaseError : Type 0 where
  lease_lost task_cancelled : LeaseError

pub record Course : Type 0 where
  -- Whether the operation is remote, and what its wait for a start returned.
  pub is_remote : Bool
  pub start : Option Failed
  -- The observation as `none`, or an error.
  pub execution : Option Failed
  -- Whether the worker was stopped by then.
  pub stopped_at_error : Bool
  pub lease_error : Option LeaseError
  -- The length of the observation's JSON, where it could be encoded.
  pub encoded : Option ℕ
  -- Whether the chunk was accepted, or an error.
  pub submitted : Option Bool
  pub stopped_at_end : Bool

pub data Code : Type 0 where
  cancelled operation_failed credential_resolution_failed observation_encode_failed
        observation_too_large :
      Code

-- The calls that report the end of an attempt, in their order. Whether they are acknowledged changes
-- nothing but the log.
pub data Report : Type 0 where
  chunk : Report
  success : Report
  failure : Code → Report

abbrev pub error_of : Course → Option Failed
error_of c =
    if c.is_remote then (elim c.start [ some e ↦ some e | none ↦ c.execution ]) else c.execution

abbrev pub code_of : Failed → Code
code_of canceled = cancelled
code_of credential = credential_resolution_failed
code_of other = operation_failed

abbrev pub is_lost : Option LeaseError → Bool
is_lost none = false
is_lost (some lease_lost) = true
is_lost (some task_cancelled) = false

abbrev pub is_cancelled : Option LeaseError → Bool
is_cancelled none = false
is_cancelled (some lease_lost) = false
is_cancelled (some task_cancelled) = true

-- The reports of an execution that failed.
failed_reports : Course → Failed → List Report
failed_reports c canceled =
    if c.stopped_at_error || is_lost c.lease_error then [] else failure cancelled ∷ []
failed_reports c credential =
    if c.stopped_at_error then [] else failure credential_resolution_failed ∷ []
failed_reports c other = if c.stopped_at_error then [] else failure operation_failed ∷ []

-- A cancellation that is known once the lease is no longer renewed.
late_cancellation : Course → List Report
late_cancellation c =
    if is_cancelled c.lease_error && not c.stopped_at_end then failure cancelled ∷ [] else []

submit_reports : Course → List Report
unfolding late_cancellation
submit_reports c = elim c.submitted [
  | none ↦ chunk ∷ late_cancellation c
  | some false ↦ chunk ∷ []
  | some true ↦ chunk ∷ success ∷ late_cancellation c
]

observed_reports : Course → Option ℕ → List Report
unfolding submit_reports
observed_reports c none = failure observation_encode_failed ∷ []
observed_reports c (some size) =
    if ltb (max_control_request_bytes / 2) size
    then failure observation_too_large ∷ []
    else submit_reports c

unfoldable pub execute_task : Course → List Report
unfolding failed_reports observed_reports
execute_task c = elim (error_of c) [
  | some e ↦ failed_reports c e
  | none ↦ observed_reports c c.encoded
]

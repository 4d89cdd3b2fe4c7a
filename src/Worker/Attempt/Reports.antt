-- ===== src/Worker/Attempt/Reports.antt =====
-- run.go: what an attempt reports.
use topo.Prelude.{
  ℕ, ◌+◌, ◌/◌, ◌≤◌, ◌≡◌, Bool, true, false, ◌&&◌, Option, none, some, List, count, to_count, leb,
  arith, Option-cases, Bool-cases, inl, inr,
}
use topo.Worker.Attempt.{
  max_control_request_bytes, Failed, canceled, credential, other, Course, Report, chunk, success,
  failure, error_of, is_cancelled, failed_reports, submit_reports, observed_reports,
  late_cancellation, execute_task,
}

abbrev pub is_success : Report → Bool
is_success chunk = false
is_success success = true
is_success (failure code) = false

abbrev pub is_failure : Report → Bool
is_failure chunk = false
is_failure success = false
is_failure (failure code) = true

abbrev pub is_chunk : Report → Bool
is_chunk chunk = true
is_chunk success = false
is_chunk (failure code) = false

-- The execution gave an observation that may be sent.
abbrev fits : Option ℕ → Bool
fits none = false
fits (some size) = leb size (max_control_request_bytes / 2)

abbrev is_none : Option Failed → Bool
is_none none = true
is_none (some e) = false

abbrev pub is_sendable : Course → Bool
is_sendable c = is_none (error_of c) && fits c.encoded

abbrev pub accepted : Option Bool → Bool
accepted none = false
accepted (some b) = b

-- What is said below, of the reports of an attempt.
abbrev ReportsOf : Course → Bool → List Report → Type 0
ReportsOf c sendable reports =
    (count is_chunk reports ≡ to_count sendable)
    × (count is_success reports ≡ to_count (sendable && accepted c.submitted))
    × (count is_failure reports ≤ 1)
    × (count is_success reports + count is_failure reports
        ≤ 1 + to_count (is_cancelled c.lease_error))

failed_lem : (c : Course) (e : Failed) → ReportsOf c false (failed_reports c e)
unfolding failed_reports
failed_lem c canceled = ground arith
failed_lem c credential = ground arith
failed_lem c other = ground arith

submit_lem : (c : Course) → ReportsOf c true (submit_reports c)
unfolding submit_reports late_cancellation
submit_lem c = ground arith

observed_lem : (c : Course) (o : Option ℕ) → ReportsOf c (fits o) (observed_reports c o)
unfolding observed_reports
observed_lem c none = ground arith
observed_lem c (some size) = elim (Bool-cases (leb size (max_control_request_bytes / 2))) [
  | inl t ↦ ground (arith, submit_lem c)
  | inr f ↦ ground arith
]

-- An attempt sends its observation in one chunk exactly where there is one that fits, reports
-- success once and exactly where that chunk is accepted, and reports at most one failure; both a
-- success and a failure are reported only where the task is cancelled meanwhile.
pub execute_task-reports :
    (c : Course)
    → (count is_chunk (execute_task c) ≡ to_count (is_sendable c))
      × (count is_success (execute_task c) ≡ to_count (is_sendable c && accepted c.submitted))
      × (count is_failure (execute_task c) ≤ 1)
      × (count is_success (execute_task c) + count is_failure (execute_task c)
          ≤ 1 + to_count (is_cancelled c.lease_error))
unfolding execute_task
execute_task-reports c = elim (Option-cases (error_of c)) [
  | inr (e, h) ↦ rw (h, execute_task) (failed_lem c e)
  | inl h ↦ rw (h, execute_task) (observed_lem c c.encoded)
]

-- ===== src/Controller/Jobs/Lifecycle.antt =====
-- jobs.go: which changes a job can undergo.
use topo.Prelude.{
  ℕ, ◌≡◌, ◌≢◌, ◌⊎◌, refl, Bool, true, false, ◌&&◌, String, str_eq, eq_iff, Option, none, some, [],
  ◌∷◌, arith, if◌then◌else◌, GoMap, lookup, store, lookup-store, lookup-store_self, Result, ok, inl,
  inr, Bool-cases,
}
use topo.Controller.Jobs.{
  JobRecord, JobState, JobStore, is_dispatched, JobResult, JobError, pending, dispatched, succeeded,
  failed, is_polled, poll_loop, poll, enqueue, result, record_result,
}

-- How one operation may change the record of one job: not at all, by creating it as pending, by
-- dispatching a pending job, or by recording the result of a dispatched one.
pub data Advances : Option JobRecord → Option JobRecord → Type 0 where
  stays : (o : Option JobRecord) → Advances o o
  created : (r : JobRecord) → r.status ≡ pending → Advances none (some r)
  dispatches :
      (r : JobRecord)
      → r.status ≡ pending
      → Advances (some r) (some (record r { status = dispatched }))
  finishes :
      (r : JobRecord) (outcome : JobResult) (now : ℕ)
      → r.status ≡ dispatched
      → Advances (some r) (
          some (record r {
            status = if outcome.success then succeeded else failed;
            completed_at = now;
            result_error = outcome.error;
          }))

poll_loop-lookup :
    (m : GoMap JobRecord) (collector id : String)
    → lookup (poll_loop m collector).0 id ≡ elim (lookup m id) [
      | none ↦ none
      | some r ↦ some (if is_polled collector r then record r { status = dispatched } else r)
    ]
unfolding poll_loop lookup
poll_loop-lookup [] collector id = refl
poll_loop-lookup ((k, r) ∷ rest) collector id = ground (arith, poll_loop-lookup rest collector id)

-- The operations that write to the store. An enqueue whose random source fails has no ID.
pub data Op : Type 0 where
  enqueues : Option String → ℕ → String → String → Op
  polls : String → Op
  reports : String → String → JobResult → ℕ → Op

pub step : JobStore → Op → JobStore
step s (enqueues id now collector job_type) = (enqueue s id now collector job_type).0
step s (polls collector) = (poll s collector).0
step s (reports id collector outcome now) = (result s id collector outcome now).0

-- A generated ID names no job yet: 128 random bits do not repeat.
abbrev pub IsFresh : JobStore → Op → Type 0
IsFresh s (enqueues (some id) now collector job_type) = lookup s.jobs id ≡ none
IsFresh s (enqueues none now collector job_type) = Unit
IsFresh s (polls collector) = Unit
IsFresh s (reports id collector outcome now) = Unit

polled_Advances :
    (collector : String) (o : Option JobRecord)
    → Advances o (elim o [
      | none ↦ none
      | some r ↦ some (if is_polled collector r then record r { status = dispatched } else r)
    ])
polled_Advances collector none = stays none
polled_Advances collector (some r) = elim (Bool-cases (is_polled collector r)) [
  | inl p ↦ rw p (dispatches r (ground arith))
  | inr n ↦ rw n (stays (some r))
]

-- One of the two branches of a write: the written key, or another.
written_Advances :
    (m : GoMap JobRecord) (key id : String) (r : JobRecord)
    → Advances (lookup m key) (some r)
    → Advances (lookup m id) (lookup (store m key r) id)
written_Advances m key id r a = elim (Bool-cases (str_eq id key)) [
  | inl same ↦ rw (lookup-store m key id r, same) (rw ((eq_iff id key).0 same) a)
  | inr other ↦ rw (lookup-store m key id r, other) (stays (lookup m id))
]

dispatched_lem : (st : JobState) → is_dispatched st ≡ true → st ≡ dispatched
dispatched_lem st h = ground arith

reports_Advances :
    (s : JobStore) (key collector : String) (outcome : JobResult) (now : ℕ) (id : String)
    → (o : Option JobRecord) → lookup s.jobs key ≡ o
    → Advances (lookup s.jobs id) (lookup (record_result s key collector outcome now o).0.jobs id)
unfolding record_result
reports_Advances s key collector outcome now id none e = stays (lookup s.jobs id)
reports_Advances s key collector outcome now id (some r) e =
    elim (Bool-cases (str_eq r.collector_id collector)) [
      | inr other ↦ rw other (stays (lookup s.jobs id))
      | inl mine ↦ elim (Bool-cases (is_dispatched r.status)) [
        | inr early ↦ rw (mine, early) (stays (lookup s.jobs id))
        | inl ready ↦
            rw (mine, ready)
              (written_Advances s.jobs key id _
                (rw e (finishes r outcome now (dispatched_lem r.status ready))))
      ]
    ]

-- Every operation changes each job by at most one step of its life: it is created pending, a poll
-- dispatches it, a result finishes it, and nothing else ever happens to it, where a generated ID is
-- fresh.
pub step-Advances :
    (s : JobStore) (op : Op) (id : String)
    → IsFresh s op
    → Advances (lookup s.jobs id) (lookup (step s op).jobs id)
unfolding step enqueue poll result
step-Advances s (enqueues none now collector job_type) id f = stays (lookup s.jobs id)
step-Advances s (enqueues (some key) now collector job_type) id f =
    written_Advances s.jobs key id _ (rw f (created _ refl))
step-Advances s (polls collector) id f =
    rw (poll_loop-lookup s.jobs collector id) (polled_Advances collector (lookup s.jobs id))
step-Advances s (reports key collector outcome now) id f =
    reports_Advances s key collector outcome now id (lookup s.jobs key) refl

-- What any number of operations make of a store, each with a fresh ID where it creates a job.
pub data Runs (s : JobStore) : JobStore → Type 0 where
  here : Runs s s
  next : {t : JobStore} (op : Op) → Runs s t → IsFresh t op → Runs s (step t op)

-- A job that has its result.
abbrev pub is_finished : JobState → Bool
is_finished succeeded = true
is_finished failed = true
is_finished _ = false

Advances-finished :
    {o p : Option JobRecord} (r : JobRecord)
    → Advances o p
    → o ≡ some r
    → is_finished r.status ≡ true
    → p ≡ some r
Advances-finished r (stays o) e f = e
Advances-finished r (created r' p) e f = ground arith
Advances-finished r (dispatches r' p) e f = ground arith
Advances-finished r (finishes r' outcome now p) e f = ground arith

-- The record of a finished job never changes again, whatever operations follow.
pub Runs-finished :
    {s t : JobStore} (id : String) (r : JobRecord)
    → Runs s t
    → lookup s.jobs id ≡ some r
    → is_finished r.status ≡ true
    → lookup t.jobs id ≡ some r
Runs-finished id r here e f = e
Runs-finished id r (next {t} op runs fresh) e f =
    Advances-finished r (step-Advances t op id fresh) (Runs-finished id r runs e f) f

-- Whether the job exists, was queued for the collector, and is dispatched without a result.
abbrev pub awaits : String → Option JobRecord → Bool
awaits collector none = false
awaits collector (some r) = str_eq r.collector_id collector && is_dispatched r.status

-- The record of a job after its result.
abbrev pub finished_record : JobRecord → JobResult → ℕ → JobRecord
finished_record r outcome now = record r {
  status = if outcome.success then succeeded else failed;
  completed_at = now;
  result_error = outcome.error;
}

-- An accepted report has finished a job that awaited it; a refused one has changed nothing.
abbrev pub ReportSpec :
    JobStore → String → String → JobResult → ℕ → JobStore × Result JobError (Unit {0}) → Type 0
ReportSpec s id collector outcome now (t, reply) =
    (awaits collector (lookup s.jobs id) ≡ true)
      × (reply ≡ ok tt)
      × ((r : JobRecord) × (lookup s.jobs id ≡ some r)
          × (lookup t.jobs id ≡ some (finished_record r outcome now)))
    ⊎ (awaits collector (lookup s.jobs id) ≡ false) × (reply ≢ ok tt) × (t ≡ s)

record_result_lem :
    (s : JobStore) (id collector : String) (outcome : JobResult) (now : ℕ) (o : Option JobRecord)
    → lookup s.jobs id ≡ o
    → ReportSpec s id collector outcome now (record_result s id collector outcome now o)
unfolding record_result
record_result_lem s id collector outcome now none e = inr (rw e, λ h. ground arith, refl)
record_result_lem s id collector outcome now (some r) e =
    elim (Bool-cases (str_eq r.collector_id collector)) [
      | inr other ↦ rw (other, e) (inr (rw other, λ h. ground arith, refl))
      | inl mine ↦ elim (Bool-cases (is_dispatched r.status)) [
        | inr early ↦ rw (mine, early, e) (inr (rw (mine, early), λ h. ground arith, refl))
        | inl ready ↦
            let written = lookup-store_self s.jobs id (finished_record r outcome now) in
            rw (mine, ready, e) (inl (rw (mine, ready), refl, (r, refl, written)))
      ]
    ]

-- A report is accepted exactly when the job awaits it from this collector. Then the job is
-- finished, with the reported success, error and time; otherwise the store is unchanged.
pub result-ReportSpec :
    (s : JobStore) (id collector : String) (outcome : JobResult) (now : ℕ)
    → ReportSpec s id collector outcome now (result s id collector outcome now)
unfolding result
result-ReportSpec s id collector outcome now =
    record_result_lem s id collector outcome now (lookup s.jobs id) refl

finished_refuses :
    (s : JobStore) (id collector : String) (outcome : JobResult) (now : ℕ) (r : JobRecord)
    → lookup s.jobs id ≡ some r
    → is_finished r.status ≡ true
    → (result s id collector outcome now).1 ≢ ok tt
finished_refuses s id collector outcome now r e f h =
    ground (arith, result-ReportSpec s id collector outcome now)

-- Once a report is accepted, no later report of the job is, from any collector, whatever
-- operations with fresh IDs come between.
pub result_once :
    (s : JobStore) {t : JobStore} (id : String) (c c' : String) (o o' : JobResult) (now now' : ℕ)
    → (result s id c o now).1 ≡ ok tt
    → Runs (result s id c o now).0 t
    → (result t id c' o' now').1 ≢ ok tt
result_once s {t} id c c' o o' now now' accepted runs = elim (result-ReportSpec s id c o now) [
  | inr (a, refused, u) ↦ absurd (refused accepted)
  | inl (a, e, (r, found, after)) ↦
      finished_refuses t id c' o' now' (finished_record r o now)
        (Runs-finished id (finished_record r o now) runs after (ground arith)) (ground arith)
]

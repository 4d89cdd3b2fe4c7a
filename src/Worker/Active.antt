-- ===== src/Worker/Active.antt =====
-- internal/worker/run.go: the attempts that run, and one cycle of claims. A mutex guards the map, so
-- that what happens while a cycle waits for an answer is a sequence: attempts that end.
pub mod Bounded
use topo.Prelude.{
  ℕ, ◌+◌, ◌≡◌, Bool, true, false, not, ◌&&◌, ◌||◌, ◌==◌, String, str_eq, Option, none, some, List,
  [], ◌∷◌, ◌++◌, any, length, leb, ltb, if◌then◌else◌, GoMap, lookup, store, delete, to_ℕ,
}
use topo.Worker.Policy.{Policy, concurrency}
use topo.Worker.Task.{Task}

-- activeTasks, with the attempts whose goroutine runs. An entry is true once its context is
-- cancelled.
pub record ActiveTasks : Type 0 where
  pub cancel : GoMap Bool
  pub running : List String

abbrev pub no_tasks : ActiveTasks
no_tasks = record { cancel = []; running = [] }

-- The methods of `activeTasks`, on its map.
unfoldable pub count : GoMap Bool → ℕ
count cancel = length cancel

unfoldable pub add : GoMap Bool → String → ℕ → Option (GoMap Bool)
add cancel attempt maximum =
    if leb maximum (length cancel) then none else elim (lookup cancel attempt) [
      | some cancelled ↦ none
      | none ↦ some (store cancel attempt false)
    ]

unfoldable pub cancel_one : GoMap Bool → String → GoMap Bool
cancel_one cancel attempt = elim (lookup cancel attempt) [
  | none ↦ cancel
  | some cancelled ↦ store cancel attempt true
]

unfoldable pub cancel_attempts : GoMap Bool → List String → GoMap Bool
unfolding cancel_one
cancel_attempts cancel [] = cancel
cancel_attempts cancel (attempt ∷ rest) = cancel_attempts (cancel_one cancel attempt) rest

unfoldable pub cancel_all : GoMap Bool → GoMap Bool
cancel_all [] = []
cancel_all ((attempt, cancelled) ∷ rest) = (attempt, true) ∷ cancel_all rest

abbrev pub remove_first : String → List String → List String
remove_first attempt [] = []
remove_first attempt (other ∷ rest) =
    let others = remove_first attempt rest in if str_eq attempt other then rest else other ∷ others

-- The end of a goroutine: `remove`, where it runs.
unfoldable pub finish : ActiveTasks → String → ActiveTasks
finish s attempt =
    if any (str_eq attempt) s.running
    then record { cancel = delete s.cancel attempt; running = remove_first attempt s.running }
    else s

-- What happens while the loop of claims runs: an answer to its call, or the end of an attempt.
pub data ClaimEvent : Type 0 where
  claim_failed no_task : ClaimEvent
  claimed : Task → ClaimEvent
  finished : String → ClaimEvent

-- `go executeTask` for a task with an entry.
started : ActiveTasks → String → Option (GoMap Bool) → Option ActiveTasks
started s attempt none = none
started s attempt (some cancel) =
    some (record { cancel = cancel; running = s.running ++ attempt ∷ [] })

-- The loop, for the events up to some time: it ends where no more attempts may run, at a call that
-- fails or brings no task, and at a task that is not added.
unfoldable pub claim_tasks : ℕ → List ClaimEvent → ActiveTasks → ActiveTasks
unfolding count add started finish
claim_tasks maximum [] s = s
claim_tasks maximum (claim_failed ∷ events) s = s
claim_tasks maximum (no_task ∷ events) s = s
claim_tasks maximum (finished attempt ∷ events) s = claim_tasks maximum events (finish s attempt)
claim_tasks maximum (claimed task ∷ events) s = elim (leb maximum (count s.cancel)) [
  | true ↦ s
  | false ↦ elim (started s task.attempt_id (add s.cancel task.attempt_id maximum)) [
    | none ↦ s
    | some t ↦ claim_tasks maximum events t
  ]
]

-- `runCycle`: the attempts that the answer to a heartbeat cancels, and then the claims.
unfoldable pub run_cycle :
    Policy → Option (List String) → List ClaimEvent → ActiveTasks → ActiveTasks
unfolding cancel_attempts claim_tasks
run_cycle policy none events s = s
run_cycle policy (some cancelled) events s =
    claim_tasks (to_ℕ (concurrency policy)) events
      (record s { cancel = cancel_attempts s.cancel cancelled })

-- What a worker does after it is registered: cycles, ends of attempts between them, and the
-- cancellation of all when it is stopped.
pub data Step (policy : Policy) : ActiveTasks → ActiveTasks → Type 0 where
  cycles :
      (s : ActiveTasks) (heartbeat : Option (List String)) (events : List ClaimEvent)
      → Step policy s (run_cycle policy heartbeat events s)
  ends : (s : ActiveTasks) (attempt : String) → Step policy s (finish s attempt)
  stops : (s : ActiveTasks) → Step policy s (record s { cancel = cancel_all s.cancel })

pub data Reachable (policy : Policy) : ActiveTasks → Type 0 where
  at_start : Reachable policy no_tasks
  after : (s t : ActiveTasks) → Reachable policy s → Step policy s t → Reachable policy t

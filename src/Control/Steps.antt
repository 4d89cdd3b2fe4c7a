-- ===== src/Control/Steps.antt =====
-- server.go: the requests and calls that change the server, as one step each: a mutex makes them
-- atomic.
use topo.Prelude.{ℕ, ◌+◌, ◌≡◌, Bool, true, [], String, none, List, lookup}
use topo.Control.Records.{ScheduleRecord, Config, Server, ControlText}
use topo.Control.Leases.{Claim, keys}
use topo.Control.Runs.{
  create_run, create_remote_run, upsert_schedule, enqueue_due, cancel_run, cleanup,
}
use topo.Control.Handlers.{RegisterRequest, register, heartbeat, claim}
use topo.Control.Attempts.{ChunkRequest, credential_for_task, renew, result}
use topo.Control.Completion.{CompleteRequest, complete}

abbrev pub new_server : Server
new_server = record {
  renew_available = true;
  next_id = 0;
  workers = [];
  runs = [];
  tasks = [];
  results = [];
  schedules = [];
  items = [];
  relations = [];
  deliveries = [];
  credential_log = [];
}

-- What may happen, each with the time of it.
pub data Request : Type 0 where
  registers : ℕ → RegisterRequest → Request
  beats : ℕ → String → String → Request
  claims : ℕ → String → String → String → List String → ℕ → Request
  renews : ℕ → String → Claim → Request
  reports : ℕ → String → Claim → ChunkRequest → Request
  completes : ℕ → String → String → Claim → CompleteRequest → Request
  reads_credential : ℕ → String → Claim → Request
  cancels : ℕ → String → Request
  runs_now : ℕ → String → ℕ → Request
  runs_remote : ℕ → String → String → String → String → Request
  schedules : String → ScheduleRecord → Request
  enqueues : ℕ → Request
  cleans : ℕ → ℕ → Request
  sets_renew : Bool → Request

module _ (text : ControlText) (config : Config) where
  unfoldable pub serve : Request → Server → Server
  serve (registers now request) s = (register text now request s).0
  serve (beats now worker boot) s = (heartbeat now worker boot s).0
  serve (claims now token worker boot capabilities current) s =
      (claim text config now token worker boot capabilities current s).0
  serve (renews now id c) s = (renew text config now id c s).0
  serve (reports now id c request) s = (result text now id c request s).0
  serve (completes now token id c request) s = (complete text now token id c request s).0
  serve (reads_credential now id c) s = (credential_for_task text config now id c s).0
  serve (cancels now id) s = (cancel_run now id s).0
  serve (runs_now now pool partitions) s = create_run text "manual" pool partitions now s
  serve (runs_remote now pool target binding operation) s =
      create_remote_run text "manual" pool target binding operation now s
  serve (schedules id schedule) s = upsert_schedule text id schedule s
  serve (enqueues now) s = enqueue_due text now (keys s.schedules) s
  serve (cleans now limit) s = record s { results = cleanup config now limit s.results }
  serve (sets_renew available) s = record s { renew_available = available }

  -- The ID that a registration draws is not one that a worker has already.
  abbrev pub IsFresh : Request → Server → Type 0
  IsFresh (registers now request) s = lookup s.workers (text.worker_id (s.next_id + 1)) ≡ none
  IsFresh _ s = Unit

  pub data Reachable : Server → Type 0 where
    start : Reachable new_server
    next :
        {s : Server}
        → Reachable s
        → (request : Request) → IsFresh request s
        → Reachable (serve request s)

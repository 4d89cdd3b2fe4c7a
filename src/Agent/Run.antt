-- ===== src/Agent/Run.antt =====
-- internal/agent/run.go and sender.go: a tick of the agent, which delivers what is in the spool and
-- then what it discovers.
pub mod Kept
pub mod Lasting
mod Examples
use topo.Prelude.{
  ℕ, zero, suc, ◌+◌, ◌≡◌, Bool, true, false, not, ◌&&◌, ◌||◌, String, str_eq, Option, none, some,
  List, [], ◌∷◌, leb, ltb, if◌then◌else◌,
}
use topo.Store.Model.{ObservationEnvelope}
use topo.Controller.Jobs.{Job}
use topo.Controller.Schedules.{job_type_discover}
use topo.Agent.Spool.{Spool, SpoolFile, WriteEnd, enqueue, pending, read, remove}

-- What a delivery comes to: `rejected` is a DeliveryError that is not retryable.
pub data Delivery : Type 0 where
  delivered rejected unreachable : Delivery

-- `doRaw`, for the status of the response or a transport failure.
unfoldable pub classify : Option ℕ → Delivery
classify none = unreachable
classify (some status) =
    if ltb status 200 || leb 300 status
    then (if leb 500 status then unreachable else rejected)
    else delivered

-- What other code answers at each call: the controller (the status of a response), the disk, the
-- plugin, the name of a new entry, and whether the agent is being stopped.
pub record Outside : Type 0 where
  pub status : ℕ → Option ℕ
  pub listable : ℕ → Bool
  pub readable : ℕ → Bool
  pub removable : ℕ → Bool
  pub write_end : ℕ → WriteEnd
  pub discovered : ℕ → Option ObservationEnvelope
  pub sealed_size : ℕ → ℕ
  pub entry_name : ℕ → String
  pub stopped : ℕ → Bool
  -- The jobs that the controller dispatches, or an error.
  pub dispatched : ℕ → Option (List Job)

-- The agent with its spool, the calls made, and what the controller was sent: the observations that
-- it took, and those that it refused for good.
pub record Agent : Type 0 where
  pub spool : Spool
  pub calls : ℕ
  pub taken : List ObservationEnvelope
  pub refused : List ObservationEnvelope
  -- The results of jobs that were sent: the ID and the success.
  pub reported : List (String × Bool)

-- What a ticker starts.
pub data Activity : Type 0 where
  ticking checking_in : Activity

abbrev called : Agent → Agent
called a = record a { calls = suc a.calls }

module _ (world : Outside) where
  -- `Send`: the answer, noted at the controller.
  pub note : Agent → ObservationEnvelope → Delivery → Agent
  note a e delivered = record (called a) { taken = e ∷ a.taken }
  note a e rejected = record (called a) { refused = e ∷ a.refused }
  note a e unreachable = called a

  send : Agent → ObservationEnvelope → Agent × Delivery
  unfolding note
  send a e = let d = classify (world.status a.calls) in (note a e d, d)

  remove_entry : Agent → String → Agent
  remove_entry a name = record (called a) { spool = remove a.spool name (world.removable a.calls) }

  -- What follows the delivery of an entry, and whether the loop goes on.
  after_send : String → Agent × Delivery → Agent × Bool
  unfolding remove_entry
  after_send name (a, delivered) = (remove_entry a name, true)
  after_send name (a, rejected) = (remove_entry a name, true)
  after_send name (a, unreachable) = (a, false)

  drain_one : Agent → String → Agent × Bool
  unfolding send after_send
  drain_one a name = elim (read a.spool name (world.readable a.calls)) [
    | none ↦ (remove_entry (called a) name, true)
    | some e ↦ after_send name (send (called a) e)
  ]

  unfoldable pub drain_entries : List String → Agent → Agent
  unfolding drain_one
  drain_entries [] a = a
  drain_entries (name ∷ names) a = elim (world.stopped a.calls) [
    | true ↦ a
    | false ↦ elim (drain_one a name).1 [
      | true ↦ drain_entries names (drain_one a name).0
      | false ↦ (drain_one a name).0
    ]
  ]

  -- `drainSpool`
  pub drain_spool : Agent → Agent
  unfolding drain_entries
  drain_spool a =
      if world.listable a.calls then drain_entries (pending a.spool) (called a) else called a

  -- `deliver`: an observation that was not taken is put in the spool.
  deliver_failed : Agent → ObservationEnvelope → Delivery → Agent
  deliver_failed a e delivered = a
  deliver_failed a e rejected = record (called a) {
    spool =
        (enqueue a.spool (world.entry_name a.calls)
          (record { size = world.sealed_size a.calls; contents = some e })
          (world.write_end a.calls)).0;
  }
  deliver_failed a e unreachable = record (called a) {
    spool =
        (enqueue a.spool (world.entry_name a.calls)
          (record { size = world.sealed_size a.calls; contents = some e })
          (world.write_end a.calls)).0;
  }

  pub deliver : Agent → ObservationEnvelope → Agent
  unfolding deliver_failed send
  deliver a e = let (b, d) = send a e in deliver_failed b e d

  -- `discoverAndSend`, and whether discovery succeeded.
  pub discover_and_send : Agent → Agent × Bool
  unfolding deliver
  discover_and_send a = elim (world.discovered a.calls) [
    | none ↦ (called a, false)
    | some e ↦ (deliver (called a) e, true)
  ]

  -- A tick of `Run`.
  pub tick : Agent → Agent
  unfolding drain_spool discover_and_send
  tick a = (discover_and_send (drain_spool a)).0

  -- `runJob`: a job of another type than discovery is reported as a failure.
  perform : Agent → Job → Agent × Bool
  perform a job = if str_eq job.job_type job_type_discover then discover_and_send a else (a, false)

  report : Job → Agent × Bool → Agent
  report job (a, success) = record (called a) { reported = (job.job_id, success) ∷ a.reported }

  pub run_job : Agent → Job → Agent
  unfolding perform report
  run_job a job = report job (perform a job)

  pub run_jobs : List Job → Agent → Agent
  unfolding run_job
  run_jobs [] a = a
  run_jobs (job ∷ jobs) a = run_jobs jobs (run_job a job)

  -- `checkIn`: a heartbeat, of which an error is only logged, and then the jobs.
  pub check_in : Agent → Agent
  unfolding run_jobs
  check_in a = elim (world.dispatched (called a).calls) [
    | none ↦ called (called a)
    | some jobs ↦ run_jobs jobs (called (called a))
  ]

  -- The loop of `Run`: what its two tickers bring, in any order.
  unfoldable pub run : List Activity → Agent → Agent
  unfolding tick check_in
  run [] a = a
  run (ticking ∷ activities) a = run activities (tick a)
  run (checking_in ∷ activities) a = run activities (check_in a)

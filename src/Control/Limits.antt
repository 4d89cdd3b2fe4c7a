-- ===== src/Control/Limits.antt =====
-- server.go: leases stay within the limits of workers and pools, whatever is asked of the server.
use topo.Prelude.{ℕ, refl, not, String, none, arith, lookup}
use topo.Control.Records.{Config, Server, ControlText}
use topo.Control.Leases.{Claim, valid_lease, keys, worker_lease_count, pool_lease_count}
use topo.Control.Runs.{upsert_schedule}
use topo.Control.Attempts.{ChunkRequest, invalid_chunk, credential_for_task, renew, result}
use topo.Control.Completion.{complete}
use topo.Control.Steps.{
  Request, registers, beats, claims, renews, reports, completes, reads_credential, cancels,
  runs_now, runs_remote, schedules, enqueues, cleans, sets_renew, new_server, serve, IsFresh,
  Reachable, start, next,
}
use topo.Control.Counts.{limit, Calm, Calm-same, Calm-refl}
use topo.Control.Calm.{
  Calm-if_pair, heartbeat-Calm, valid_lease-IsHeldAt, credential_for-Calm, renew_task-Calm,
  result_of-Calm,
}
use topo.Control.CalmCompletion.{complete_of-Calm}
use topo.Control.CalmRuns.{
  create_run-Calm, create_remote_run-Calm, enqueue_due-Calm, cancel_run-Calm,
}
use topo.Control.Bounded.{IsBounded, Calm-IsBounded, register-IsBounded}
use topo.Control.Claims.{claim-IsBounded}

start-IsBounded : (config : Config) → IsBounded config new_server
unfolding worker_lease_count pool_lease_count lookup
start-IsBounded config = record {
  workers = λ w. omega arith;
  pools = λ p. omega arith;
  distinct = tt;
}

module _ (text : ControlText) (config : Config) where
  renew-Calm :
      (now : ℕ) (id : String) (c : Claim) (s : Server) → Calm s (renew text config now id c s).0
  unfolding renew
  renew-Calm now id c s =
      Calm-if_pair (not s.renew_available) s (s, none) _ (Calm-refl s)
        (renew_task-Calm config now id (valid_lease text now s id c) s
          (valid_lease-IsHeldAt text now s id c))

  result-Calm :
      (now : ℕ) (id : String) (c : Claim) (request : ChunkRequest) (s : Server)
      → Calm s (result text now id c request s).0
  unfolding result
  result-Calm now id c request s =
      Calm-if_pair (invalid_chunk text request) s (s, none) _ (Calm-refl s)
        (result_of-Calm text now id c request (valid_lease text now s id c) s
          (valid_lease-IsHeldAt text now s id c))

  serve-IsBounded :
      (request : Request) (s : Server)
      → IsFresh text config request s
      → IsBounded config s
      → IsBounded config (serve text config request s)
  unfolding serve complete credential_for_task upsert_schedule
  serve-IsBounded (registers now request) s f b = register-IsBounded config text now request s f b
  serve-IsBounded (beats now worker boot) s f b =
      Calm-IsBounded config s _ (heartbeat-Calm now worker boot s) b
  serve-IsBounded (claims now token worker boot capabilities current) s f b =
      claim-IsBounded text config now token worker boot capabilities current s b
  serve-IsBounded (renews now id c) s f b = Calm-IsBounded config s _ (renew-Calm now id c s) b
  serve-IsBounded (reports now id c request) s f b =
      Calm-IsBounded config s _ (result-Calm now id c request s) b
  serve-IsBounded (completes now token id c request) s f b =
      Calm-IsBounded config s _
        (complete_of-Calm text now token id c request (valid_lease text now s id c) s
          (valid_lease-IsHeldAt text now s id c))
        b
  serve-IsBounded (reads_credential now id c) s f b =
      Calm-IsBounded config s _
        (credential_for-Calm config now id c (valid_lease text now s id c) s) b
  serve-IsBounded (cancels now id) s f b = Calm-IsBounded config s _ (cancel_run-Calm now id s) b
  serve-IsBounded (runs_now now pool partitions) s f b =
      Calm-IsBounded config s _ (create_run-Calm text now "manual" pool partitions s) b
  serve-IsBounded (runs_remote now pool target binding operation) s f b =
      Calm-IsBounded config s _
        (create_remote_run-Calm text now "manual" pool target binding operation s) b
  serve-IsBounded (schedules id schedule) s f b =
      Calm-IsBounded config s _ (Calm-same _ _ refl refl) b
  serve-IsBounded (enqueues now) s f b =
      Calm-IsBounded config s _ (enqueue_due-Calm text now (keys s.schedules) s) b
  serve-IsBounded (cleans now limit) s f b = Calm-IsBounded config s _ (Calm-same _ _ refl refl) b
  serve-IsBounded (sets_renew available) s f b =
      Calm-IsBounded config s _ (Calm-same _ _ refl refl) b

  -- Whatever is asked of the server, and in whatever order, each worker holds at most as many tasks
  -- as it registered for (an unknown one none), and each pool at most as many as the server allows,
  -- where a registration never draws the ID of another worker.
  pub served-IsBounded : {s : Server} → Reachable text config s → IsBounded config s
  served-IsBounded start = start-IsBounded config
  served-IsBounded (next {s} r request fresh) = serve-IsBounded request s fresh (served-IsBounded r)

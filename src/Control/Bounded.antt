-- ===== src/Control/Bounded.antt =====
-- server.go: what it means that leases are within the limits, and the steps that matter for it.
use topo.Prelude.{
  ℕ, ◌+◌, ◌≡◌, ◌≤◌, ◌<◌, Bool, true, false, ◌&&◌, String, str_eq, eq_iff, none, some, arith,
  if◌then◌else◌, Distinct, store-Distinct, lookup, store, lookup-store,
}
use topo.Control.Records.{TaskRecord, WorkerRecord, Config, Server, ControlText}
use topo.Control.Leases.{is_held, set_task, worker_lease_count, pool_lease_count}
use topo.Control.Handlers.{RegisterRequest, invalid_registration, register, leased}
use topo.Control.Counts.{count-store, limit, Calm}

-- No worker holds more leases than it registered for, and no pool more than the server allows.
pub record IsBounded (config : Config) (s : Server) : Type 0 where
  pub workers : (worker : String) → worker_lease_count s worker ≤ limit s worker
  pub pools : (pool : String) → pool_lease_count s pool ≤ config.pool_max_leases
  pub distinct : Distinct s.tasks

module _ (config : Config) where
  pub Calm-IsBounded : (s t : Server) → Calm s t → IsBounded config s → IsBounded config t
  Calm-IsBounded s t c b = record {
    workers = λ w. omega (arith, c.limits w, c.workers w, b.workers w);
    pools = λ p. omega (arith, c.pools p, b.pools p);
    distinct = c.distinct b.distinct;
  }

  -- A worker under a new ID.
  pub set_worker-IsBounded :
      (s : Server) (id : String) (r : WorkerRecord) (n : ℕ)
      → lookup s.workers id ≡ none
      → IsBounded config s
      → IsBounded config (record s { next_id = n; workers = store s.workers id r })
  unfolding worker_lease_count pool_lease_count
  set_worker-IsBounded s id r n h b = record {
    workers = λ w. ground (arith, lookup-store s.workers id w r, eq_iff w id, b.workers w);
    pools = λ p. b.pools p;
    distinct = b.distinct;
  }

  pub IsBounded-if_pair :
      {A : Type 0} (b : Bool) (x y : Server × A)
      → IsBounded config x.0
      → IsBounded config y.0
      → IsBounded config (if b then x else y).0
  IsBounded-if_pair true x y p q = p
  IsBounded-if_pair false x y p q = q

  pub register-IsBounded :
      (text : ControlText) (now : ℕ) (request : RegisterRequest) (s : Server)
      → lookup s.workers (text.worker_id (s.next_id + 1)) ≡ none
      → IsBounded config s
      → IsBounded config (register text now request s).0
  unfolding register
  register-IsBounded text now request s h b =
      IsBounded-if_pair (invalid_registration request) (s, none) _ b
        (set_worker-IsBounded s (text.worker_id (s.next_id + 1)) _ (s.next_id + 1) h b)

  -- A lease of a task that is ready, where the limits leave room.
  pub lease-IsBounded :
      (text : ControlText) (now : ℕ) (token worker : String) (r : WorkerRecord) (id : String)
      (t : TaskRecord) (s : Server)
      → lookup s.tasks id ≡ some t
      → is_held t.state ≡ false
      → t.worker_pool ≡ r.worker_pool
      → worker_lease_count s worker < limit s worker
      → pool_lease_count s r.worker_pool < config.pool_max_leases
      → IsBounded config s
      → IsBounded config (set_task s id (leased text config now token worker r id t))
  unfolding worker_lease_count pool_lease_count leased is_held
  lease-IsBounded text now token worker r id t s h idle same room space b =
      let new = leased text config now token worker r id t in
      record {
        workers = λ w. ground (
          arith,
          count-store (λ t. str_eq t.worker_id w && is_held t.state) s.tasks id new,
          h,
          eq_iff worker w,
          b.workers w,
        );
        pools = λ p. ground (
          arith,
          count-store (λ t. str_eq t.worker_pool p && is_held t.state) s.tasks id new,
          h,
          eq_iff t.worker_pool p,
          b.pools p,
        );
        distinct = store-Distinct s.tasks id new b.distinct;
      }

-- ===== src/Control/Counts.antt =====
-- server.go: how the counts of leases and the limits of workers change with the maps.
use topo.Prelude.{
  ℕ, ◌+◌, ◌≡◌, ◌≤◌, refl, Bool, true, false, ◌&&◌, ◌⊎◌, inl, inr, String, str_eq, eq_iff, Option,
  none, some, [], ◌∷◌, arith, GoMap, Distinct, store-Distinct, lookup, store, lookup-store, count,
  to_count,
}
use topo.Control.Records.{TaskRecord, WorkerRecord, Server}
use topo.Control.Leases.{is_held, worker_lease_count, pool_lease_count, set_task}

-- What the entry under a key counts for.
abbrev pub counted_at : (TaskRecord → Bool) → Option TaskRecord → ℕ
counted_at f none = 0
counted_at f (some t) = to_count (f t)

pub count-store :
    (f : TaskRecord → Bool) (m : GoMap TaskRecord) (id : String) (t : TaskRecord)
    → count (λ e. f e.1) (store m id t) + counted_at f (lookup m id)
      ≡ count (λ e. f e.1) m + to_count (f t)
unfolding store lookup
count-store f [] id t = omega arith
count-store f ((name, x) ∷ rest) id t = ground (arith, count-store f rest id t)

-- How many attempts a worker may hold; none that is not registered.
abbrev pub limit_of : Option WorkerRecord → ℕ
limit_of none = 0
limit_of (some r) = r.max_concurrency

abbrev pub limit : Server → String → ℕ
limit s worker = limit_of (lookup s.workers worker)

-- No worker and no pool has more leases than before, the limits are the same, and so are the
-- keys' being distinct.
pub record Calm (s t : Server) : Type 0 where
  pub limits : (worker : String) → limit t worker ≡ limit s worker
  pub workers : (worker : String) → worker_lease_count t worker ≤ worker_lease_count s worker
  pub pools : (pool : String) → pool_lease_count t pool ≤ pool_lease_count s pool
  pub distinct : Distinct s.tasks → Distinct t.tasks

pub Calm-trans : (s t u : Server) → Calm s t → Calm t u → Calm s u
Calm-trans s t u p q = record {
  limits = λ w. omega (arith, p.limits w, q.limits w);
  workers = λ w. omega (arith, p.workers w, q.workers w);
  pools = λ w. omega (arith, p.pools w, q.pools w);
  distinct = λ d. q.distinct (p.distinct d);
}

-- The maps of workers and tasks are the same.
pub Calm-same : (s t : Server) → t.workers ≡ s.workers → t.tasks ≡ s.tasks → Calm s t
unfolding worker_lease_count pool_lease_count
Calm-same s t p q = record {
  limits = λ w. rw p refl;
  workers = λ w. rw q (omega arith);
  pools = λ w. rw q (omega arith);
  distinct = λ d. rw q d;
}

pub Calm-refl : (s : Server) → Calm s s
Calm-refl s = Calm-same s s refl refl

-- A task that is not held, or is held as before.
abbrev pub Keeps : Option TaskRecord → TaskRecord → Type 0
Keeps none new = is_held new.state ≡ false
Keeps (some old) new =
    (is_held new.state ≡ false)
    ⊎ (new.worker_id ≡ old.worker_id)
      × (new.worker_pool ≡ old.worker_pool)
      × (is_held old.state ≡ true)

Keeps-counted :
    (f : TaskRecord → String) (key : String) (o : Option TaskRecord) (new : TaskRecord)
    → Keeps o new
    → ((old : TaskRecord)
        → o ≡ some old
        → new.worker_id ≡ old.worker_id
        → new.worker_pool ≡ old.worker_pool
        → f new ≡ f old)
    → to_count (str_eq (f new) key && is_held new.state)
      ≤ counted_at (λ t. str_eq (f t) key && is_held t.state) o
Keeps-counted f key none new h g = ground arith
Keeps-counted f key (some old) new (inl h) g = ground arith
Keeps-counted f key (some old) new (inr h) g = ground (arith, g old refl h.0 h.1)

pub set_task-Calm :
    (s : Server) (id : String) (new : TaskRecord)
    → Keeps (lookup s.tasks id) new
    → Calm s (set_task s id new)
unfolding worker_lease_count pool_lease_count
set_task-Calm s id new k = record {
  limits = λ w. refl;
  workers = λ w. omega (
    arith,
    count-store (λ t. str_eq t.worker_id w && is_held t.state) s.tasks id new,
    Keeps-counted (λ t. t.worker_id) w (lookup s.tasks id) new k (λ old e p q. p),
  );
  pools = λ w. omega (
    arith,
    count-store (λ t. str_eq t.worker_pool w && is_held t.state) s.tasks id new,
    Keeps-counted (λ t. t.worker_pool) w (lookup s.tasks id) new k (λ old e p q. q),
  );
  distinct = λ d. store-Distinct s.tasks id new d;
}

-- A worker whose limit stays.
pub set_worker-Calm :
    (s : Server) (id : String) (r new : WorkerRecord)
    → lookup s.workers id ≡ some r
    → new.max_concurrency ≡ r.max_concurrency
    → Calm s (record s { workers = store s.workers id new })
unfolding worker_lease_count pool_lease_count
set_worker-Calm s id r new h e = record {
  limits = λ w. ground (arith, lookup-store s.workers id w new, eq_iff w id);
  workers = λ w. omega arith;
  pools = λ w. omega arith;
  distinct = λ d. d;
}

-- ===== src/Control/Claims.antt =====
-- server.go: a claim keeps leases within the limits of workers and pools.
use topo.Prelude.{
  ℕ, ◌+◌, ◌≡◌, ◌<◌, refl, Bool, true, false, ◌&&◌, ◌||◌, inl, inr, String, str_eq, eq_iff, Option,
  none, some, List, [], ◌∷◌, arith, leb, GoMap, Distinct, All, All-map, All-sort_slice, lookup,
  Bool-cases, Option-cases, sort_slice, subst, ◌∙◌,
}
use topo.Store.Model.{str_less}
use topo.Control.Records.{TaskState, TaskRecord, WorkerRecord, Config, Server, ControlText}
use topo.Control.Leases.{
  is_held, refresh_run, reclaim_one, reclaim, set_task, keys, worker_lease_count, pool_lease_count,
}
use topo.Control.Handlers.{
  is_ready, contains, claim, claimable, leased, run_attempted, counted_lease, next_task, first,
  lease_task, assign,
}
use topo.Control.Counts.{Calm, Calm-trans, Calm-same, Calm-refl, set_worker-Calm}
use topo.Control.Calm.{reclaim-Calm}
use topo.Control.Bounded.{IsBounded, IsBounded-if_pair, Calm-IsBounded, lease-IsBounded}

-- A task that a worker may take.
abbrev MayTake : WorkerRecord → GoMap TaskRecord → String → Type 0
MayTake r tasks id =
    (t : TaskRecord) × (lookup tasks id ≡ some t)
    × (is_held t.state ≡ false)
    × (t.worker_pool ≡ r.worker_pool)

ready_idle : (x : TaskState) → is_ready x ≡ true → is_held x ≡ false
unfolding is_held
ready_idle TaskState.ready h = refl
ready_idle TaskState.leased h = cc
ready_idle TaskState.running h = cc
ready_idle TaskState.results_received h = cc
ready_idle TaskState.complete h = cc
ready_idle TaskState.failed h = cc
ready_idle TaskState.cancelled h = cc

MayTake-cons :
    (r : WorkerRecord) (name : String) (x : TaskRecord) (rest : GoMap TaskRecord) (id : String)
    → lookup rest name ≡ none
    → MayTake r rest id
    → MayTake r ((name, x) ∷ rest) id
unfolding lookup
MayTake-cons r name x rest id gone (t, found, idle, pool) =
    (t, ground (arith, eq_iff id name), idle, pool)

claimable-MayTake :
    (r : WorkerRecord) (tasks : GoMap TaskRecord)
    → Distinct tasks
    → All (MayTake r tasks) (claimable r tasks)
unfolding claimable lookup
claimable-MayTake r [] d = tt
claimable-MayTake r ((name, t) ∷ rest) d =
    let others : All (MayTake r ((name, t) ∷ rest)) (claimable r rest) =
      All-map (MayTake r rest) _ (λ id k. MayTake-cons r name t rest id d.0 k) (claimable r rest)
        (claimable-MayTake r rest d.1) in
    let mine : Bool =
      is_ready t.state
      && str_eq t.worker_pool r.worker_pool
      && contains r.capabilities t.operation in
    elim (Bool-cases mine) [
      | inl yes_mine ↦ rw yes_mine (
        (
          t,
          ground (arith, eq_iff name name),
          ready_idle t.state (ground arith),
          ground (arith, eq_iff t.worker_pool r.worker_pool),
        ),
        others,
      )
      | inr other ↦ rw other others
    ]

first-MayTake :
    {A : Type 0} (P : A → Type 0) (xs : List A) (x : A) → All P xs → first xs ≡ some x → P x
first-MayTake P [] x h e = cc
first-MayTake P (y ∷ ys) x h e = subst P (ground arith) h.0

-- What is known of the task that is chosen.
abbrev Chosen : Config → String → WorkerRecord → Server → Option String → Type 0
Chosen config worker r s none = Unit
Chosen config worker r s (some id) =
    (worker_lease_count s worker < r.max_concurrency)
    × (pool_lease_count s r.worker_pool < config.pool_max_leases)
    × MayTake r s.tasks id

next_task-Chosen :
    (config : Config) (worker : String) (r : WorkerRecord) (s : Server)
    → Distinct s.tasks
    → Chosen config worker r s (next_task config worker r s)
unfolding next_task
next_task-Chosen config worker r s d =
    let full : Bool =
      leb r.max_concurrency (worker_lease_count s worker)
      || leb config.pool_max_leases (pool_lease_count s r.worker_pool) in
    let candidates = sort_slice str_less (claimable r s.tasks) in
    let all =
      All-sort_slice str_less (MayTake r s.tasks) (claimable r s.tasks)
        (claimable-MayTake r s.tasks d) in
    elim (Bool-cases full) [
      | inl e ↦ rw e tt
      | inr e ↦ elim (Option-cases (first candidates)) [
        | inl gone ↦ rw (e, gone) tt
        | inr (id, found) ↦
            rw (e, found)
              (
                ground arith,
                ground arith,
                first-MayTake (MayTake r s.tasks) candidates id all found,
              )
      ]
    ]

module _ (config : Config) where
  counted_lease-Calm :
      (worker : String) (r : WorkerRecord) (n : ℕ) (s : Server)
      → lookup s.workers worker ≡ some r
      → Calm s (counted_lease worker r n s)
  counted_lease-Calm worker r n s h = set_worker-Calm s worker r _ h refl

  run_attempted-Calm : (id : String) (s : Server) → Calm s (run_attempted id s)
  run_attempted-Calm id s = elim (Option-cases (lookup s.runs id)) [
    | inl gone ↦ rw (gone, run_attempted) (Calm-refl s)
    | inr (run, found) ↦ rw (found, run_attempted) (Calm-same _ _ refl refl)
  ]

  assign-IsBounded :
      (text : ControlText) (now : ℕ) (token worker : String) (r : WorkerRecord) (o : Option String)
      (s : Server)
      → lookup s.workers worker ≡ some r
      → Chosen config worker r s o
      → IsBounded config s
      → IsBounded config (assign text config now token worker r o s).0
  unfolding assign lease_task
  assign-IsBounded text now token worker r none s h k b =
      Calm-IsBounded config s _ (counted_lease-Calm worker r (worker_lease_count s worker) s h) b
  assign-IsBounded text now token worker r (some id) s h (room, space, (t, found, idle, pool)) b =
      let under = set_task s id (leased text config now token worker r id t) in
      rw (found, lease_task)
        (Calm-IsBounded config under _
          (Calm-trans under _ _
            (counted_lease-Calm worker r (worker_lease_count s worker + 1) under h)
            (run_attempted-Calm t.run_id _))
          (lease-IsBounded config text now token worker r id t s found idle pool (rw h room) space
            b))

refresh_run-workers :
    (now : ℕ) (id : String) (s : Server) → (refresh_run now id s).workers ≡ s.workers
unfolding refresh_run
refresh_run-workers now id s = elim (Option-cases (lookup s.runs id)) [
  | inl gone ↦ rw (gone, refresh_run) refl
  | inr (run, found) ↦ rw (found, refresh_run) refl
]

reclaim_one-workers :
    (now : ℕ) (id : String) (o : Option TaskRecord) (s : Server)
    → (reclaim_one now id o s).workers ≡ s.workers
unfolding reclaim_one
reclaim_one-workers now id none s = refl
reclaim_one-workers now id (some t) s =
    elim (Bool-cases (is_held t.state && leb t.lease_expires_at now)) [
      | inl e ↦ rw (e, reclaim_one) (refresh_run-workers now t.run_id _)
      | inr e ↦ rw (e, reclaim_one) refl
    ]

reclaim-workers :
    (now : ℕ) (ids : List String) (s : Server) → (reclaim now ids s).workers ≡ s.workers
unfolding reclaim
reclaim-workers now [] s = refl
reclaim-workers now (id ∷ ids) s =
    reclaim-workers now ids (reclaim_one now id (lookup s.tasks id) s)
    ∙ reclaim_one-workers now id (lookup s.tasks id) s

pub claim-IsBounded :
    (text : ControlText) (config : Config) (now : ℕ) (token worker boot : String)
    (capabilities : List String) (current : ℕ) (s : Server)
    → IsBounded config s
    → IsBounded config (claim text config now token worker boot capabilities current s).0
unfolding claim
claim-IsBounded text config now token worker boot capabilities current s b =
    elim (Option-cases (lookup s.workers worker)) [
      | inl gone ↦ rw (gone, claim) b
      | inr (r, found) ↦
          let s' = reclaim now (keys s.tasks) s in
          let known : lookup s'.workers worker ≡ some r =
            rw (reclaim-workers now (keys s.tasks) s) found in
          let b' = Calm-IsBounded config s s' (reclaim-Calm now (keys s.tasks) s) b in
          rw (found, claim)
            (IsBounded-if_pair config _ (s, none) _ b
              (assign-IsBounded config text now token worker r (next_task config worker r s') s'
                known (next_task-Chosen config worker r s' b'.distinct) b'))
    ]

-- ===== src/Control/Honoured.antt =====
-- server.go: a claim hands out a lease that the server then honours, and no longer than it says.
use topo.Prelude.{
  ◌&&◌, subst, ℕ, ◌+◌, ◌≡◌, refl, Bool, true, false, not, ◌||◌, inl, inr, String, str_eq, eq_iff,
  Option, none, some, List, arith, ltb, if◌then◌else◌, lookup, lookup-store_self, Option-cases,
}
use topo.Control.Records.{TaskRecord, WorkerRecord, Config, Server, ControlText}
use topo.Control.Leases.{
  Claim, is_held, owns, valid_lease, reclaim, set_task, keys, worker_lease_count,
}
use topo.Control.Handlers.{
  claim, leased, run_attempted, counted_lease, next_task, lease_task, assign, equal_strings,
}

run_attempted-tasks : (id : String) (s : Server) → (run_attempted id s).tasks ≡ s.tasks
run_attempted-tasks id s = elim (Option-cases (lookup s.runs id)) [
  | inl gone ↦ rw (gone, run_attempted) refl
  | inr (run, found) ↦ rw (found, run_attempted) refl
]

valid_lease_found :
    (text : ControlText) (now : ℕ) (s : Server) (id : String) (c : Claim) (t : TaskRecord)
    → lookup s.tasks id ≡ some t
    → valid_lease text now s id c ≡ (if owns text now c t then some t else none)
unfolding valid_lease
valid_lease_found text now s id c t h = rw (h, valid_lease) refl

module _ (text : ControlText) (config : Config) (now : ℕ) (token worker : String) (later : ℕ)
    (c : Claim) where
  -- What the server takes as the attempt that was just handed out, at a later time.
  abbrev pub Honoured : String → String → String → Server → Type 0
  Honoured boot id attempt s =
      (t : TaskRecord) × (lookup s.tasks id ≡ some t)
      × (t.lease_expires_at ≡ (
          if ltb t.deadline (now + config.lease_duration)
          then t.deadline
          else now + config.lease_duration))
      × (valid_lease text later s id c ≡ (
          if str_eq worker c.worker_id
            && str_eq boot c.boot_id
            && str_eq attempt c.attempt_id
            && ltb later t.lease_expires_at
            && str_eq (text.sha256_hex token) (text.sha256_hex c.lease_token)
          then some t
          else none))

  abbrev pub HonouredIn : String → Server × Option (String × String) → Type 0
  HonouredIn boot (s, none) = Unit
  HonouredIn boot (s, some (id, attempt)) = Honoured boot id attempt s

  lease_task-Honoured :
      (r : WorkerRecord) (id : String) (o : Option TaskRecord) (s : Server)
      → HonouredIn r.boot_id (lease_task text config now token worker r id o s)
  unfolding lease_task owns leased is_held
  lease_task-Honoured r id none s = tt
  lease_task-Honoured r id (some t) s =
      let new = leased text config now token worker r id t in
      let under = counted_lease worker r (worker_lease_count s worker + 1) (set_task s id new) in
      let stored : lookup (run_attempted t.run_id under).tasks id ≡ some new =
        rw (run_attempted-tasks t.run_id under) (lookup-store_self s.tasks id new) in
      (
        new,
        stored,
        refl,
        valid_lease_found text later (run_attempted t.run_id under) id c new stored,
      )

  assign-Honoured :
      (r : WorkerRecord) (o : Option String) (s : Server)
      → HonouredIn r.boot_id (assign text config now token worker r o s)
  unfolding assign
  assign-Honoured r none s = tt
  assign-Honoured r (some id) s = lease_task-Honoured r id (lookup s.tasks id) s

  HonouredIn-if :
      (boot : String) (b : Bool) (s : Server) (x : Server × Option (String × String))
      → (b ≡ false → HonouredIn boot x)
      → HonouredIn boot (if b then (s, none) else x)
  HonouredIn-if boot true s x f = tt
  HonouredIn-if boot false s x f = f refl

  -- A claim that hands out a task gives a lease that ends with its duration or the deadline of the
  -- task, whichever comes first. In the state that the claim leaves, the server takes a request at
  -- any time as that attempt exactly when it names the worker, its boot and the attempt, has a token with the hash of the one
  -- handed out, and comes before the end of the lease.
  pub claim-HonouredIn :
      (boot : String) (capabilities : List String) (current : ℕ) (s : Server)
      → HonouredIn boot (claim text config now token worker boot capabilities current s)
  unfolding claim
  claim-HonouredIn boot capabilities current s = elim (Option-cases (lookup s.workers worker)) [
    | inl gone ↦ rw (gone, claim) tt
    | inr (r, found) ↦
        let refused : Bool =
          not (str_eq r.boot_id boot)
          || not (equal_strings capabilities r.capabilities)
          || ltb r.max_concurrency current in
        let s' = reclaim now (keys s.tasks) s in
        rw (found, claim)
          (HonouredIn-if boot refused s _ λ accepted.
            let same : r.boot_id ≡ boot = ground (arith, eq_iff r.boot_id boot) in
            subst
              (λ b.
                HonouredIn b
                  (assign text config now token worker r (next_task config worker r s') s'))
              same (assign-Honoured r (next_task config worker r s') s'))
  ]

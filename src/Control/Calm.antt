-- ===== src/Control/Calm.antt =====
-- server.go: every step but a registration and a new lease keeps the counts of leases.
use topo.Prelude.{
  ℕ, ◌≡◌, refl, Bool, true, false, inl, inr, String, str_eq, Option, none, some, List, [], ◌∷◌,
  arith, if◌then◌else◌, lookup, Bool-cases, Option-cases,
}
use topo.Control.Records.{
  TaskState, TaskRecord, RunRecord, ResultRecord, Config, Server, ControlText,
}
use topo.Control.Leases.{
  Claim, is_held, owns, valid_lease, refresh_run, set_task, released, reclaim_one, reclaim,
}
use topo.Control.Handlers.{heartbeat}
use topo.Control.Attempts.{
  ChunkRequest, credential_for, renewed, renew_task, store_chunk, result_of, logged,
}
use topo.Control.Completion.{processed, with_run}
use topo.Control.Counts.{
  Calm, Calm-trans, Calm-same, Calm-refl, Keeps, set_task-Calm, set_worker-Calm,
}

pub Calm-if : (b : Bool) (s t u : Server) → Calm s t → Calm s u → Calm s (if b then t else u)
Calm-if true s t u p q = p
Calm-if false s t u p q = q

pub Calm-if_pair :
    {A : Type 0} (b : Bool) (s : Server) (x y : Server × A)
    → Calm s x.0
    → Calm s y.0
    → Calm s (if b then x else y).0
Calm-if_pair true s x y p q = p
Calm-if_pair false s x y p q = q

pub refresh_run-Calm : (now : ℕ) (id : String) (s : Server) → Calm s (refresh_run now id s)
unfolding refresh_run
refresh_run-Calm now id s = elim (Option-cases (lookup s.runs id)) [
  | inl gone ↦ rw (gone, refresh_run) (Calm-refl s)
  | inr (run, found) ↦ rw (found, refresh_run) (Calm-same _ _ refl refl)
]

pub with_run-Calm :
    (id : String) (change : RunRecord → RunRecord) (s : Server) → Calm s (with_run id change s)
with_run-Calm id change s = elim (Option-cases (lookup s.runs id)) [
  | inl gone ↦ rw (gone, with_run) (Calm-refl s)
  | inr (run, found) ↦ rw (found, with_run) (Calm-same _ _ refl refl)
]

pub processed-Calm :
    (now : ℕ) (key terminal : String) (s : Server) → Calm s (processed now key terminal s)
unfolding processed
processed-Calm now key terminal s = elim (Option-cases (lookup s.results key)) [
  | inl gone ↦ rw (gone, processed) (Calm-refl s)
  | inr (run, found) ↦ rw (found, processed) (Calm-same _ _ refl refl)
]

Keeps-idle : (o : Option TaskRecord) (new : TaskRecord) → is_held new.state ≡ false → Keeps o new
Keeps-idle none new h = h
Keeps-idle (some old) new h = inl h

-- A task that nobody holds.
pub idle-Calm :
    (s : Server) (id : String) (new : TaskRecord)
    → is_held new.state ≡ false
    → Calm s (set_task s id new)
idle-Calm s id new h = set_task-Calm s id new (Keeps-idle (lookup s.tasks id) new h)

reclaim_one-Calm :
    (now : ℕ) (id : String) (o : Option TaskRecord) (s : Server)
    → lookup s.tasks id ≡ o
    → Calm s (reclaim_one now id o s)
unfolding reclaim_one released is_held
reclaim_one-Calm now id none s h = Calm-refl s
reclaim_one-Calm now id (some t) s h =
    Calm-if _ s _ s
      (Calm-trans s (set_task s id (released t)) _
        (set_task-Calm s id (released t) (rw h (inl (ground arith))))
        (refresh_run-Calm now t.run_id (set_task s id (released t))))
      (Calm-refl s)

pub reclaim-Calm : (now : ℕ) (ids : List String) (s : Server) → Calm s (reclaim now ids s)
unfolding reclaim
reclaim-Calm now [] s = Calm-refl s
reclaim-Calm now (id ∷ ids) s =
    Calm-trans s (reclaim_one now id (lookup s.tasks id) s) _
      (reclaim_one-Calm now id (lookup s.tasks id) s refl)
      (reclaim-Calm now ids (reclaim_one now id (lookup s.tasks id) s))

pub heartbeat-Calm :
    (now : ℕ) (worker boot : String) (s : Server) → Calm s (heartbeat now worker boot s).0
unfolding heartbeat
heartbeat-Calm now worker boot s = elim (Option-cases (lookup s.workers worker)) [
  | inl gone ↦ rw (gone, heartbeat) (Calm-refl s)
  | inr (r, found) ↦
      rw (found, heartbeat)
        (Calm-if_pair (str_eq r.boot_id boot) s _ _ (set_worker-Calm s worker r _ found refl)
          (Calm-refl s))
]

-- The task of a valid lease is the one under its ID, and it is held.
abbrev pub IsHeldAt : Server → String → Option TaskRecord → Type 0
IsHeldAt s id none = Unit
IsHeldAt s id (some t) = (lookup s.tasks id ≡ some t) × (is_held t.state ≡ true)

pub valid_lease-IsHeldAt :
    (text : ControlText) (now : ℕ) (s : Server) (id : String) (c : Claim)
    → IsHeldAt s id (valid_lease text now s id c)
unfolding valid_lease owns
valid_lease-IsHeldAt text now s id c = elim (Option-cases (lookup s.tasks id)) [
  | inl gone ↦ rw (gone, valid_lease) tt
  | inr (t, found) ↦ elim (Bool-cases (owns text now c t)) [
    | inl own ↦ rw (found, own, valid_lease) (found, ground arith)
    | inr other ↦ rw (found, other, valid_lease) tt
  ]
]

-- The task of a lease, with the same worker and pool.
pub held_task-Calm :
    (s : Server) (id : String) (t new : TaskRecord)
    → IsHeldAt s id (some t)
    → new.worker_id ≡ t.worker_id
    → new.worker_pool ≡ t.worker_pool
    → Calm s (set_task s id new)
held_task-Calm s id t new h p q = set_task-Calm s id new (rw (h.0) (inr (p, q, h.1)))

module _ (config : Config) (now : ℕ) (id : String) where
  pub credential_for-Calm :
      (c : Claim) (o : Option TaskRecord) (s : Server) → Calm s (credential_for config id c o s).0
  unfolding credential_for
  credential_for-Calm c none s = Calm-same _ _ refl refl
  credential_for-Calm c (some t) s =
      Calm-if_pair _ s (logged id c "denied" "binding_or_credential_invalid" s, false)
        (logged id c "allowed" "attempt_bound" s, true) (Calm-same _ _ refl refl)
        (Calm-same _ _ refl refl)

  pub renew_task-Calm :
      (o : Option TaskRecord) (s : Server)
      → IsHeldAt s id o
      → Calm s (renew_task config now id o s).0
  unfolding renew_task renewed
  renew_task-Calm none s h = Calm-refl s
  renew_task-Calm (some t) s h =
      Calm-if_pair t.cancel_requested s _ _ (Calm-refl s)
        (held_task-Calm s id t (renewed config now t) h refl refl)

store_chunk-Calm :
    (now : ℕ) (id : String) (request : ChunkRequest) (t : TaskRecord) (key : String)
    (o : Option ResultRecord) (s : Server)
    → IsHeldAt s id (some t)
    → Calm s (store_chunk now id request t key o s).0
unfolding store_chunk
store_chunk-Calm now id request t key (some r) s h =
    Calm-if_pair _ s _ _ (Calm-refl s) (Calm-refl s)
store_chunk-Calm now id request t key none s h =
    Calm-trans s (set_task s id (record t { state = TaskState.results_received; chunk_count = 1 }))
      _ (held_task-Calm s id t _ h refl refl) (Calm-same _ _ refl refl)

pub result_of-Calm :
    (text : ControlText) (now : ℕ) (id : String) (c : Claim) (request : ChunkRequest)
    (o : Option TaskRecord) (s : Server)
    → IsHeldAt s id o
    → Calm s (result_of text now id c request o s).0
unfolding result_of
result_of-Calm text now id c request none s h = Calm-refl s
result_of-Calm text now id c request (some t) s h =
    Calm-if_pair t.cancel_requested s _ _ (Calm-refl s) (store_chunk-Calm now id request t _ _ s h)

-- ===== src/Control/CalmRuns.antt =====
-- server.go: what starts and cancels runs keeps the counts of leases.
use topo.Prelude.{
  ℕ, zero, suc, ◌+◌, ◌≡◌, refl, Bool, false, not, ◌||◌, inl, inr, String, str_eq, Option, none,
  some, List, [], ◌∷◌, arith, ltb, if◌then◌else◌, lookup, Option-cases,
}
use topo.Control.Records.{TaskState, TaskRecord, ScheduleRecord, Server, ControlText}
use topo.Control.Leases.{is_held}
use topo.Control.Runs.{
  create_remote_run, create_tasks, create_run, upsert_schedule, enqueue_one, enqueue_due,
  cancelled_task, cancel_one, cancel_tasks, cancel_run, is_over, ssh_linux_v1, winrm_windows_v1,
}
use topo.Control.Counts.{Calm, Calm-trans, Calm-same, Calm-refl, Keeps, set_task-Calm}
use topo.Control.Calm.{Calm-if, Calm-if_pair, idle-Calm}

module _ (text : ControlText) (now : ℕ) where
  pub create_remote_run-Calm :
      (trigger pool target binding operation : String) (s : Server)
      → Calm s (create_remote_run text trigger pool target binding operation now s)
  unfolding create_remote_run is_held
  create_remote_run-Calm trigger pool target binding operation s =
      Calm-trans s _ _ (idle-Calm s (text.task_id (s.next_id + 2)) _ refl) (Calm-same _ _ refl refl)

  create_tasks-Calm :
      (left ordinal partitions : ℕ) (run pool : String) (s : Server)
      → Calm s (create_tasks text left ordinal partitions run pool now s)
  unfolding create_tasks is_held
  create_tasks-Calm zero ordinal partitions run pool s = Calm-refl s
  create_tasks-Calm (suc left) ordinal partitions run pool s =
      Calm-trans s _ _ (idle-Calm s (text.task_id (s.next_id + 1)) _ refl) (
        Calm-trans _ _ _ (Calm-same _ _ refl refl)
          (create_tasks-Calm left (ordinal + 1) partitions run pool _))

  pub create_run-Calm :
      (trigger pool : String) (partitions : ℕ) (s : Server)
      → Calm s (create_run text trigger pool partitions now s)
  unfolding create_run
  create_run-Calm trigger pool partitions s = Calm-if _ s s _ (Calm-refl s) (
      Calm-trans s _ _ (Calm-same s _ refl refl)
        (create_tasks-Calm partitions 0 partitions _ pool _))

  enqueue_one-Calm :
      (id : String) (o : Option ScheduleRecord) (s : Server) → Calm s (enqueue_one text now id o s)
  unfolding enqueue_one upsert_schedule
  enqueue_one-Calm id none s = Calm-refl s
  enqueue_one-Calm id (some r) s =
      let remote : Bool = str_eq r.operation ssh_linux_v1 || str_eq r.operation winrm_windows_v1 in
      let started : Server =
        if remote
        then create_remote_run text "scheduled" r.worker_pool r.target r.credential_binding_id
            r.operation now s
        else create_run text "scheduled" r.worker_pool 1 now s in
      Calm-if (not r.active || ltb now r.next_run_at) s s _ (Calm-refl s) (
        Calm-trans s started _
          (Calm-if remote s _ _
            (create_remote_run-Calm "scheduled" r.worker_pool r.target r.credential_binding_id
              r.operation s)
            (create_run-Calm "scheduled" r.worker_pool 1 s))
          (Calm-same started _ refl refl))

  pub enqueue_due-Calm : (ids : List String) (s : Server) → Calm s (enqueue_due text now ids s)
  unfolding enqueue_due
  enqueue_due-Calm [] s = Calm-refl s
  enqueue_due-Calm (id ∷ ids) s =
      Calm-trans s _ _ (enqueue_one-Calm id (lookup s.schedules id) s) (enqueue_due-Calm ids _)

cancelled-Keeps : (t : TaskRecord) (x : TaskState) → t.state ≡ x → Keeps (some t) (cancelled_task t)
unfolding cancelled_task is_held
cancelled-Keeps t TaskState.ready e = inl (rw (e, cancelled_task) refl)
cancelled-Keeps t TaskState.leased e = inr (ground arith, ground arith, ground arith)
cancelled-Keeps t TaskState.running e = inr (ground arith, ground arith, ground arith)
cancelled-Keeps t TaskState.results_received e = inr (ground arith, ground arith, ground arith)
cancelled-Keeps t TaskState.complete e = inl (ground arith)
cancelled-Keeps t TaskState.failed e = inl (ground arith)
cancelled-Keeps t TaskState.cancelled e = inl (ground arith)

cancel_one-Calm :
    (id : String) (o : Option TaskRecord) (s : Server)
    → lookup s.tasks id ≡ o
    → Calm s (cancel_one id o s)
unfolding cancel_one cancelled_task is_held
cancel_one-Calm id none s h = Calm-refl s
cancel_one-Calm id (some t) s h =
    set_task-Calm s id (cancelled_task t) (rw h (cancelled-Keeps t t.state refl))

cancel_tasks-Calm : (ids : List String) (s : Server) → Calm s (cancel_tasks ids s)
unfolding cancel_tasks
cancel_tasks-Calm [] s = Calm-refl s
cancel_tasks-Calm (id ∷ ids) s =
    Calm-trans s _ _ (cancel_one-Calm id (lookup s.tasks id) s refl) (cancel_tasks-Calm ids _)

pub cancel_run-Calm : (now : ℕ) (id : String) (s : Server) → Calm s (cancel_run now id s).0
unfolding cancel_run
cancel_run-Calm now id s = elim (Option-cases (lookup s.runs id)) [
  | inl gone ↦ rw (gone, cancel_run) (Calm-refl s)
  | inr (run, found) ↦
      rw (found, cancel_run)
        (Calm-if_pair (is_over run.state) s (s, false) _ (Calm-refl s)
          (Calm-trans s _ _ (cancel_tasks-Calm run.task_ids s) (Calm-same _ _ refl refl)))
]

-- ===== src/Control/CalmCompletion.antt =====
-- server.go: a completion keeps the counts of leases.
use topo.Prelude.{
  ℕ, ◌≡◌, refl, false, not, ◌||◌, inl, inr, String, str_eq, Option, none, some, Bool-cases,
}
use topo.Control.Records.{TaskRecord, RunRecord, IrePayload, IreDelivery, Server, ControlText}
use topo.Store.Model.{ObservationEnvelope}
use topo.Control.Leases.{Claim, is_held, set_task}
use topo.Control.Completion.{
  CompleteRequest, failed_task, fail_ire, complete_task, applied_payload, complete_payload,
  complete_of, delivered, failure_code, valid_failure,
}
use topo.Control.Counts.{Calm, Calm-trans, Calm-same, Calm-refl}
use topo.Control.Calm.{
  Calm-if_pair, refresh_run-Calm, with_run-Calm, processed-Calm, idle-Calm, held_task-Calm,
  IsHeldAt,
}

fail_ire-Calm :
    (now : ℕ) (id attempt key : String) (t : TaskRecord) (s : Server)
    → IsHeldAt s id (some t)
    → Calm s (fail_ire now id attempt key t s)
unfolding fail_ire
fail_ire-Calm now id attempt key t s h = Calm-trans s _ _ (held_task-Calm s id t _ h refl refl) (
    Calm-trans _ _ _ (with_run-Calm t.run_id _ _) (
      Calm-trans _ _ _ (refresh_run-Calm now t.run_id _)
        (Calm-trans _ _ _ (processed-Calm now key "failed" _) (Calm-same _ _ refl refl))))

complete_task-Calm :
    (now : ℕ) (id key : String) (t : TaskRecord) (d : IreDelivery) (change : RunRecord → RunRecord)
    (s : Server)
    → IsHeldAt s id (some t)
    → Calm s (complete_task now id key t d change s)
unfolding complete_task
complete_task-Calm now id key t d change s h =
    Calm-trans s (delivered d s) _ (Calm-same _ _ refl refl) (
      Calm-trans _ _ _ (held_task-Calm (delivered d s) id t _ h refl refl) (
        Calm-trans _ _ _ (with_run-Calm t.run_id _ _) (
          Calm-trans _ _ _ (refresh_run-Calm now t.run_id _)
            (processed-Calm now key "complete" _))))

module _ (text : ControlText) (now : ℕ) (token id attempt key : String) (t : TaskRecord)
    (s : Server) (h : IsHeldAt s id (some t)) where
  applied_payload-Calm :
      (o : Option IrePayload) → Calm s (applied_payload now token id attempt key t o s).0
  unfolding applied_payload
  applied_payload-Calm none = fail_ire-Calm now id attempt key t s h
  applied_payload-Calm (some payload) =
      Calm-trans s _ _ (Calm-same s _ refl refl) (complete_task-Calm now id key t _ _ _ h)

  complete_payload-Calm :
      (payload : String) (o : Option ObservationEnvelope)
      → Calm s (complete_payload text now token id attempt key t payload o s).0
  unfolding complete_payload
  complete_payload-Calm payload none = applied_payload-Calm _
  complete_payload-Calm payload (some e) =
      Calm-if_pair _ s _ _ (complete_task-Calm now id key t _ _ s h) (applied_payload-Calm _)

failed_task-idle :
    (failure : Option (String × String)) (t : TaskRecord)
    → is_held (failed_task failure t).state ≡ false
unfolding failed_task is_held
failed_task-idle failure t =
    elim (Bool-cases (t.cancel_requested || str_eq (failure_code failure) "cancelled")) [
      | inl e ↦ rw (e, failed_task) refl
      | inr e ↦ rw (e, failed_task) refl
    ]

pub complete_of-Calm :
    (text : ControlText) (now : ℕ) (token id : String) (c : Claim) (request : CompleteRequest)
    (o : Option TaskRecord) (s : Server)
    → IsHeldAt s id o
    → Calm s (complete_of text now token id c request o s).0
unfolding complete_of failed_task
complete_of-Calm text now token id c request none s h = Calm-refl s
complete_of-Calm text now token id c request (some t) s h =
    Calm-if_pair (not request.success) s _ _
      (Calm-if_pair (valid_failure request.failure) s _ _
        (Calm-trans s (set_task s id (failed_task request.failure t)) _
          (idle-Calm s id (failed_task request.failure t) (failed_task-idle request.failure t))
          (refresh_run-Calm now t.run_id _))
        (Calm-refl s))
      (Calm-if_pair _ s (s, false) _ (Calm-refl s)
        (complete_payload-Calm text now token id _ _ t s h _ _))

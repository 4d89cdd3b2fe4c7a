-- ===== src/Store/Memory/Writes.antt =====
-- store.go: what every write to the repository keeps.
use topo.Prelude.{
  ℕ, ◌≡◌, String, eq_iff, none, some, List, [], ◌∷◌, arith, lookup, store, lookup-store,
  lookup-store_self, ok, inl, inr, Option-cases,
}
use topo.Audit.{AuditText, Event, verify_chain}
use topo.Audit.Chain.{append-verifies}
use topo.Store.Model.{ObservationEnvelope, StoreText, Schedule, CertificateRevocation}
use topo.Store.Memory.{
  Memory, save_observation, append_event, upsert_schedule, delete_schedule, revoke_certificate,
}

-- The methods of the repository that write to it.
pub data Write : Type 0 where
  saves : ObservationEnvelope → Write
  appends : ℕ → Event → Write
  upserts : Schedule → Write
  deletes : String → Write
  revokes : CertificateRevocation → Write

unfoldable pub write : StoreText → AuditText → Memory → Write → Memory
write text audit m (saves e) = save_observation text m e
write text audit m (appends now e) = append_event audit m now e
write text audit m (upserts sched) = upsert_schedule m sched
write text audit m (deletes id) = delete_schedule m id
write text audit m (revokes r) = (revoke_certificate m r).0

unfoldable pub write_all : StoreText → AuditText → Memory → List Write → Memory
write_all text audit m [] = m
write_all text audit m (w ∷ ws) = write_all text audit (write text audit m w) ws

write-revocation :
    (text : StoreText) (audit : AuditText) (m : Memory) (w : Write) (serial : String)
    → (r : CertificateRevocation) → lookup m.revocations serial ≡ some r
    → lookup (write text audit m w).revocations serial ≡ some r
unfolding write save_observation append_event upsert_schedule delete_schedule revoke_certificate
write-revocation text audit m (saves e) serial r h = h
write-revocation text audit m (appends now e) serial r h = h
write-revocation text audit m (upserts sched) serial r h = h
write-revocation text audit m (deletes id) serial r h = h
write-revocation text audit m (revokes new) serial r h =
    elim (Option-cases (lookup m.revocations new.serial_number)) [
      | inr (old, found) ↦ rw (found, write, revoke_certificate) h
      | inl fresh ↦
          rw (fresh, write, revoke_certificate)
            (ground (
              arith,
              lookup-store m.revocations new.serial_number serial new,
              eq_iff serial new.serial_number,
            ))
    ]

revocation_kept :
    (text : StoreText) (audit : AuditText) (m : Memory) (ws : List Write) (serial : String)
    → (r : CertificateRevocation) → lookup m.revocations serial ≡ some r
    → lookup (write_all text audit m ws).revocations serial ≡ some r
unfolding write_all
revocation_kept text audit m [] serial r h = h
revocation_kept text audit m (w ∷ ws) serial r h =
    revocation_kept text audit (write text audit m w) ws serial r
      (write-revocation text audit m w serial r h)

-- The revocation of a serial is the first one, or that of before, and no write ever changes it.
pub revoke_certificate-lasts :
    (text : StoreText) (audit : AuditText) (m : Memory) (r : CertificateRevocation)
    (ws : List Write)
    → lookup (write_all text audit (revoke_certificate m r).0 ws).revocations r.serial_number
      ≡ elim (lookup m.revocations r.serial_number) [ some old ↦ some old | none ↦ some r ]
unfolding revoke_certificate
revoke_certificate-lasts text audit m r ws =
    elim (Option-cases (lookup m.revocations r.serial_number)) [
      | inr (old, found) ↦
          rw (found, revoke_certificate) (revocation_kept text audit m ws r.serial_number old found)
      | inl fresh ↦
          rw (fresh, revoke_certificate)
            (revocation_kept text audit
              (record m { revocations = store m.revocations r.serial_number r }) ws r.serial_number
              r (lookup-store_self m.revocations r.serial_number r))
    ]

write-verifies :
    (text : StoreText) (audit : AuditText) (m : Memory) (w : Write)
    → verify_chain audit m.audit_entries ≡ ok tt
    → verify_chain audit (write text audit m w).audit_entries ≡ ok tt
unfolding write save_observation append_event upsert_schedule delete_schedule revoke_certificate
write-verifies text audit m (saves e) h = h
write-verifies text audit m (appends now e) h = append-verifies audit m.audit_entries now e h
write-verifies text audit m (upserts sched) h = h
write-verifies text audit m (deletes id) h = h
write-verifies text audit m (revokes new) h =
    elim (Option-cases (lookup m.revocations new.serial_number)) [
      | inr (old, found) ↦ rw (found, write, revoke_certificate) h
      | inl fresh ↦ rw (fresh, write, revoke_certificate) h
    ]

-- The audit entries of a repository verify after any writes, when they did before.
pub write_all-verifies :
    (text : StoreText) (audit : AuditText) (m : Memory) (ws : List Write)
    → verify_chain audit m.audit_entries ≡ ok tt
    → verify_chain audit (write_all text audit m ws).audit_entries ≡ ok tt
unfolding write_all
write_all-verifies text audit m [] h = h
write_all-verifies text audit m (w ∷ ws) h =
    write_all-verifies text audit (write text audit m w) ws (write-verifies text audit m w h)

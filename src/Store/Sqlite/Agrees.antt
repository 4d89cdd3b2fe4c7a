-- ===== src/Store/Sqlite/Agrees.antt =====
-- sqlite.go: what the reads return is what the repository in memory returns.
use topo.Prelude.{
  ℕ, ◌≡◌, refl, Bool, true, false, String, Option, none, some, lookup, inl, inr, Bool-cases,
}
use topo.Prelude.Actions.{◌>>=◌, lift}
use topo.Store.Model.{Schedule}
use topo.Store.Memory as Memory
use topo.Store.Memory.{Memory, new_memory, values, is_certificate_revoked}
use topo.Store.Sqlite.Rows.{
  RowText, Tables, ScheduleRow, RevocationRow, scan_schedule, scan_revocation,
}
use topo.Store.Sqlite.Database.{Connection, query}
use topo.Store.Sqlite.Reads as Reads
use topo.Store.Sqlite.Reads.{
  list_observations, list_audit_entries, get_schedule, scan_found, exists_row, entry_before,
}
use topo.Store.Sqlite.ClaimRows.{Same}
use topo.Store.Sqlite.Tables.{
  SameSchedule, ObservationsAre-scan, EntriesAre-sorted, EntriesAre-scan,
}
use topo.Store.Sqlite.Represents.{Represents}

-- The schedule that is found, up to its time of creation.
pub SameUpToCreation : Option Schedule → Option Schedule → Type 0
SameUpToCreation none none = Unit
SameUpToCreation (some s) (some r) = (at : ℕ) × (s ≡ record r { created_at = at })
SameUpToCreation none (some r) = ⊥
SameUpToCreation (some s) none = ⊥

-- What a read returns, where the database carries it out.
abbrev pub Returns : {A : Type 0} → Bool → (A → Type 0) → Option A → Type 0
Returns carried_out P none = carried_out ≡ false
Returns carried_out P (some a) = P a

module _ {Col : Type 0} (row : RowText Col) (driver : ℕ → Bool) (m : Memory) where
  exists-Same :
      (o : Option (RevocationRow Col)) (serial : String)
      → Same (scan_revocation row) o (lookup m.revocations serial)
      → exists_row o ≡ is_certificate_revoked m serial
  unfolding is_certificate_revoked
  exists-Same none serial h = rw (h, is_certificate_revoked) refl
  exists-Same (some r) serial (v, scanned, found) = rw (found, is_certificate_revoked) refl

  schedule-Same :
      (o : Option (ScheduleRow Col)) (id : String)
      → SameSchedule row o (lookup m.schedules id)
      → Returns true
          (λ s. SameUpToCreation s (Memory.get_schedule m id))
          (scan_found (scan_schedule row) o)
  unfolding Memory.get_schedule SameUpToCreation
  schedule-Same none id h = rw h tt
  schedule-Same (some r) id (s, at, scanned, found) = rw (found, scanned, scan_found) (at, refl)

  -- A query and a scan that succeeds.
  read-Returns :
      {R A : Type 0} (read : Tables Col → R) (scan : R → Option A) (P : A → Type 0)
      (c : Connection Col)
      → Returns true P (scan (read c.tables))
      → Returns (driver c.statements) P ((query driver read >>= λ rows. lift (scan rows)) c).1
  unfolding query ◌>>=◌ lift
  read-Returns read scan P c h = elim (Bool-cases (driver c.statements)) [
    | inl e ↦ rw (e, query, ◌>>=◌) h
    | inr e ↦ rw (e, query, ◌>>=◌) refl
  ]

  -- Each read is refused only where the database does not carry out its one statement.
  pub reads_agree :
      (c : Connection Col) (serial id : String)
      → Represents row c.tables m
      → Returns (driver c.statements) (λ es. es ≡ m.observations) (list_observations row driver c).1
        × Returns
            (driver c.statements)
            (λ es. es ≡ m.audit_entries)
            (list_audit_entries row driver c).1
        × Returns
            (driver c.statements)
            (λ s. SameUpToCreation s (Memory.get_schedule m id))
            (get_schedule row driver id c).1
        × Returns
            (driver c.statements)
            (λ b. b ≡ is_certificate_revoked m serial)
            (Reads.is_certificate_revoked row driver serial c).1
  unfolding list_observations list_audit_entries get_schedule Reads.is_certificate_revoked query
  reads_agree c serial id h = (
    read-Returns _ _ _ c
        (rw (ObservationsAre-scan row c.tables.observations m.observations h.0.observations) refl),
    read-Returns _ _ _ c (
        rw (EntriesAre-sorted row 0 c.tables.audit_entries m.audit_entries h.0.audit_entries) (
          rw (EntriesAre-scan row 0 c.tables.audit_entries m.audit_entries h.0.audit_entries)
            refl)),
    read-Returns _ _ _ c (schedule-Same (lookup c.tables.schedules id) id (h.0.schedules id)),
    (elim (Bool-cases (driver c.statements)) [
      | inl e ↦
          rw (e, query)
            (exists-Same (lookup c.tables.revocations serial) serial (h.0.revocations serial))
      | inr e ↦ rw (e, query) refl
    ]),
  )

-- ===== src/Store/Sqlite/Represents.antt =====
-- sqlite.go: each write does to the tables what the repository in memory does to its fields.
use topo.Prelude.{
  ℕ, ◌≡◌, refl, Bool, String, Option, none, some, arith, lookup, inl, inr, Option-cases,
}
use topo.Store.Model.{Schedule, CertificateRevocation}
use topo.Store.Memory as Memory
use topo.Store.Memory.{Memory, save_envelope, merge_relationship}
use topo.Store.Memory.Observations.{IndexAgrees}
use topo.Store.Sqlite.Rows.{
  RowText, RoundTrips, ScheduleRow, Tables, scan_schedule, scan_revocation,
}
use topo.Store.Sqlite.Saves.{
  insert_revocation, revocation_row, upsert_schedule, delete_schedule, revoke_certificate,
}
use topo.Store.Sqlite.Leads.{Leads, Leads-exec, Leads-exec_affecting}
use topo.Store.Sqlite.ClaimRows.{Same}
use topo.Store.Sqlite.Claims.{ClaimsAre}
use topo.Store.Sqlite.Tables.{
  ObservationsAre, EntriesAre, RelationshipsAre, RevocationsAre, SchedulesAre, SameSchedule,
  store-Same, delete-Same,
}

module _ {Col : Type 0} (row : RowText Col) where
  -- All tables but the claims.
  pub record OthersAre (t : Tables Col) (m : Memory) : Type 0 where
    pub observations : ObservationsAre row t.observations m.observations
    pub index : IndexAgrees m.observations m.observation_index
    pub relationships : RelationshipsAre row t.relationships m.stored_relationships
    pub audit_entries : EntriesAre row 0 t.audit_entries m.audit_entries
    pub schedules : SchedulesAre row t.schedules m.schedules
    pub revocations : RevocationsAre row t.revocations m.revocations

  -- The tables hold what the repository in memory holds.
  abbrev pub Represents : Tables Col → Memory → Type 0
  Represents t m = OthersAre t m × ClaimsAre row t.asset_claims m.asset_claims

module _ {Col : Type 0} (row : RowText Col) (trip : RoundTrips row) where
  scan-created_at :
      (r : ScheduleRow Col) (s : Schedule)
      → scan_schedule row r ≡ some s
      → row.parse_time r.created_at ≡ some s.created_at
  unfolding scan_schedule
  scan-created_at r s h = ground (arith)

  -- The column that an upsert leaves in `created_at` is that of a time.
  kept-created_at :
      (o : Option (ScheduleRow Col)) (m : Option Schedule) (s : Schedule)
      → SameSchedule row o m
      → (at : ℕ) × (row.parse_time
            (elim o [ none ↦ row.format_time s.created_at | some old ↦ old.created_at ])
          ≡ some at)
  kept-created_at none m s h = (s.created_at, trip.time s.created_at)
  kept-created_at (some old) m s (x, at, scanned, found) =
      (at, scan-created_at old (record x { created_at = at }) scanned)

module _ {Col : Type 0} (row : RowText Col) (trip : RoundTrips row) (driver : ℕ → Bool)
    (m : Memory) where
  pub upsert_schedule-Leads :
      (s : Schedule)
      → Leads
          (λ t. Represents row t m)
          (upsert_schedule row driver s)
          (λ _ t. Represents row t (Memory.upsert_schedule m s))
  unfolding upsert_schedule Memory.upsert_schedule scan_schedule
  upsert_schedule-Leads s = Leads-exec driver _ _ λ t r. (
    record {
      observations = r.0.observations;
      index = r.0.index;
      relationships = r.0.relationships;
      audit_entries = r.0.audit_entries;
      schedules =
          let (at, parsed) =
            kept-created_at row trip (lookup t.schedules s.collector_id)
              (lookup m.schedules s.collector_id) s (r.0.schedules s.collector_id) in
          store-Same (SameSchedule row) t.schedules m.schedules s.collector_id _ s r.0.schedules
            (s, at, rw (parsed, trip.time s.next_run_at, trip.time s.updated_at) refl, refl);
      revocations = r.0.revocations;
    },
    r.1,
  )

  pub delete_schedule-Leads :
      (id : String)
      → Leads
          (λ t. Represents row t m)
          (delete_schedule row driver id)
          (λ _ t. Represents row t (Memory.delete_schedule m id))
  unfolding delete_schedule Memory.delete_schedule
  delete_schedule-Leads id = Leads-exec driver _ _ λ t r. (
    record {
      observations = r.0.observations;
      index = r.0.index;
      relationships = r.0.relationships;
      audit_entries = r.0.audit_entries;
      schedules = delete-Same (SameSchedule row) t.schedules m.schedules id r.0.schedules refl;
      revocations = r.0.revocations;
    },
    r.1,
  )

  revoked :
      (r : CertificateRevocation) (t : Tables Col)
      → Represents row t m
      → ((insert_revocation row r t (lookup t.revocations r.serial_number)).1
          ≡ (Memory.revoke_certificate m r).1)
        × Represents row
            (insert_revocation row r t (lookup t.revocations r.serial_number)).0
            (Memory.revoke_certificate m r).0
  unfolding insert_revocation Memory.revoke_certificate revocation_row scan_revocation
  revoked r t h = elim (Option-cases (lookup t.revocations r.serial_number)) [
    | inl fresh ↦
        let absent = rw fresh at (h.0.revocations r.serial_number) in
        rw (fresh, absent, insert_revocation, Memory.revoke_certificate)
          (
            refl,
            (
              record {
                observations = h.0.observations;
                index = h.0.index;
                relationships = h.0.relationships;
                audit_entries = h.0.audit_entries;
                schedules = h.0.schedules;
                revocations =
                    store-Same (Same (scan_revocation row)) t.revocations m.revocations
                      r.serial_number _ r h.0.revocations
                      (r, rw (trip.time r.revoked_at) refl, refl);
              },
              h.1,
            ),
          )
    | inr (old, there) ↦
        let (v, scanned, found) = rw there at (h.0.revocations r.serial_number) in
        rw (there, found, insert_revocation, Memory.revoke_certificate) (refl, h)
  ]

  pub revoke_certificate-Leads :
      (r : CertificateRevocation)
      → Leads
          (λ t. Represents row t m)
          (revoke_certificate row driver r)
          (λ affected t.
            (affected ≡ (Memory.revoke_certificate m r).1)
            × Represents row t (Memory.revoke_certificate m r).0)
  unfolding revoke_certificate
  revoke_certificate-Leads r = Leads-exec_affecting driver _ _ (revoked r)

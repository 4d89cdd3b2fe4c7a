-- ===== src/Store/Sqlite/Reads.antt =====
-- sqlite.go: the methods that read.
use topo.Prelude.{
  ℕ, Bool, true, false, not, String, str_eq, Option, none, some, List, ltb, if◌then◌else◌, lookup,
  sort_slice,
}
use topo.Prelude.Actions.{Action, lift, ◌>>=◌}
use topo.Audit.{Entry}
use topo.Store.Model.{
  ObservationEnvelope, str_less, AssetClaim, ResolvedRelationship, Schedule, CertificateRevocation,
}
use topo.Store.Memory.{values}
use topo.Store.Sqlite.Rows.{
  RowText, ClaimRow, AuditRow, scan_observation, scan_claim, scan_relationship, scan_entry,
  scan_schedule, scan_revocation, scan_all,
}
use topo.Store.Sqlite.Database.{Connection, query}

-- `ORDER BY asset_id, source_key`
abbrev pub row_before : {Col : Type 0} → ClaimRow Col → ClaimRow Col → Bool
row_before a b =
    if not (str_eq a.asset_id b.asset_id)
    then str_less a.asset_id b.asset_id
    else str_less a.source_key b.source_key

abbrev pub entry_before : {Col : Type 0} → AuditRow Col → AuditRow Col → Bool
entry_before a b = ltb a.sequence b.sequence

-- `sql.ErrNoRows` is `ErrNotFound`; any other error ends the call.
abbrev pub scan_found : {R A : Type 0} → (R → Option A) → Option R → Option (Option A)
scan_found scan none = some none
scan_found scan (some r) = elim (scan r) [ none ↦ none | some a ↦ some (some a) ]

abbrev pub exists_row : {R : Type 0} → Option R → Bool
exists_row none = false
exists_row (some r) = true

module _ {Col : Type 0} (row : RowText Col) (driver : ℕ → Bool) where
  unfoldable pub list_observations : Action (Connection Col) (List ObservationEnvelope)
  list_observations = do
    rows ← query driver (λ t. values t.observations)
    lift (scan_all (scan_observation row) rows)

  unfoldable pub list_asset_claims : Action (Connection Col) (List AssetClaim)
  list_asset_claims = do
    rows ← query driver (λ t. sort_slice row_before t.asset_claims)
    lift (scan_all (scan_claim row) rows)

  unfoldable pub list_relationships : Action (Connection Col) (List ResolvedRelationship)
  list_relationships = do
    rows ← query driver (λ t. sort_slice (λ a b. str_less a.id b.id) (values t.relationships))
    lift (scan_all (scan_relationship row) rows)

  unfoldable pub list_audit_entries : Action (Connection Col) (List Entry)
  list_audit_entries = do
    rows ← query driver (λ t. sort_slice entry_before t.audit_entries)
    lift (scan_all (scan_entry row) rows)

  unfoldable pub list_schedules : Action (Connection Col) (List Schedule)
  list_schedules = do
    rows ←
        query driver
          (λ t. sort_slice (λ a b. str_less a.collector_id b.collector_id) (values t.schedules))
    lift (scan_all (scan_schedule row) rows)

  -- The inner `none` is `ErrNotFound`.
  unfoldable pub get_schedule : String → Action (Connection Col) (Option Schedule)
  get_schedule id = do
    found ← query driver (λ t. lookup t.schedules id)
    lift (scan_found (scan_schedule row) found)

  unfoldable pub list_certificate_revocations : Action (Connection Col) (List CertificateRevocation)
  list_certificate_revocations = do
    rows ←
        query driver
          (λ t. sort_slice (λ a b. str_less a.serial_number b.serial_number) (values t.revocations))
    lift (scan_all (scan_revocation row) rows)

  unfoldable pub is_certificate_revoked : String → Action (Connection Col) Bool
  is_certificate_revoked serial = query driver (λ t. exists_row (lookup t.revocations serial))

-- ===== src/Store/Sqlite/Saves.antt =====
-- sqlite.go: the methods that write.
use topo.Prelude.{
  ℕ, ◌+◌, ◌==◌, Bool, true, false, not, ◌&&◌, ◌||◌, String, str_eq, Option, none, some, List, [],
  ◌∷◌, ◌++◌, ltb, any, bytes_eq, if◌then◌else◌, lookup, store, delete,
}
use topo.Prelude.Actions.{Action, return, lift, ◌>>=◌, ◌>>◌}
use topo.Audit.{Text, AuditText, Event, Entry, chain}
use topo.Store.Model.{
  Asset, Relationship, ObservationEnvelope, StoreText, stable_asset_id, stable_relationship_id,
  asset_source_key, Schedule, CertificateRevocation,
}
use topo.Store.Sqlite.Rows.{
  RowText, ClaimRow, RelationshipRow, AuditRow, RevocationRow, Tables, find_claim,
}
use topo.Store.Sqlite.Database.{Connection, exec, exec_affecting, query, in_transaction}

-- The columns that `saveAssetClaim` sets in the row that is there already.
pub record ClaimUpdate (Col : Type 0) : Type 0 where
  pub asset_json : Col
  pub first_observation_id : String
  pub last_observation_id : String
  pub first_observed_at : Col
  pub last_observed_at : Col

abbrev pub updated : {Col : Type 0} → ClaimRow Col → ClaimUpdate Col → ClaimRow Col
updated r u = record r {
  asset_json = u.asset_json;
  first_observation_id = u.first_observation_id;
  last_observation_id = u.last_observation_id;
  first_observed_at = u.first_observed_at;
  last_observed_at = u.last_observed_at;
}

-- `UPDATE asset_claims SET … WHERE asset_id = ? AND source_key = ?`
unfoldable pub update_claims :
    {Col : Type 0} → List (ClaimRow Col) → String → String → ClaimUpdate Col → List (ClaimRow Col)
update_claims [] id key u = []
update_claims (r ∷ rest) id key u =
    (if str_eq id r.asset_id && str_eq key r.source_key then updated r u else r)
    ∷ update_claims rest id key u

-- `SELECT … ORDER BY sequence DESC LIMIT 1`
unfoldable pub newest_entry : {Col : Type 0} → List (AuditRow Col) → Option (AuditRow Col)
newest_entry [] = none
newest_entry (r ∷ rest) = elim (newest_entry rest) [
  | none ↦ some r
  | some s ↦ if ltb r.sequence s.sequence then some s else some r
]

-- `lastSeq, prevHash`, which are 0 and "" for an empty log.
abbrev pub last_link : {Col : Type 0} → Option (AuditRow Col) → ℕ × Text
last_link none = (0, [])
last_link (some r) = (r.sequence, r.hash)

-- `sequence` is the primary key, and `hash` is unique.
unfoldable pub insert_entry :
    {Col : Type 0} → List (AuditRow Col) → AuditRow Col → Option (List (AuditRow Col))
insert_entry rows new =
    if any (λ r. r.sequence == new.sequence || bytes_eq r.hash new.hash) rows
    then none
    else some (rows ++ new ∷ [])

module _ {Col : Type 0} (row : RowText Col) where
  open row use {format_time}

  -- `INSERT INTO observations … ON CONFLICT(observation_id) DO UPDATE`
  unfoldable pub save_envelope_row : ObservationEnvelope → Col → Tables Col → Tables Col
  save_envelope_row e json t = record t {
    observations =
        store t.observations e.observation_id
          (record { envelope_json = json; observed_at = format_time e.observed_at });
  }

  -- `INSERT INTO assets … ON CONFLICT(id) DO UPDATE`
  unfoldable pub save_asset_row : ObservationEnvelope → String → Col → Tables Col → Tables Col
  save_asset_row e id json t = record t {
    assets = store t.assets id (record {
      asset_json = json;
      first_observation_id = elim (lookup t.assets id) [
        | some old ↦ old.first_observation_id
        | none ↦ e.observation_id
      ];
      last_observation_id = e.observation_id;
    });
  }

  -- `INSERT INTO relationships … ON CONFLICT(id) DO UPDATE`: the row under an ID after it.
  abbrev pub relationship_row :
      ObservationEnvelope → String → Col → Option (RelationshipRow Col) → RelationshipRow Col
  relationship_row e id json (some old) = record old {
    relationship_json = json;
    last_observation_id = e.observation_id;
  }
  relationship_row e id json none = record {
    id = id;
    relationship_json = json;
    first_observation_id = e.observation_id;
    last_observation_id = e.observation_id;
  }

  unfoldable pub save_relationship_row :
      ObservationEnvelope → String → Col → Tables Col → Tables Col
  save_relationship_row e id json t = record t {
    relationships =
        store t.relationships id (relationship_row e id json (lookup t.relationships id));
  }

  unfoldable pub new_claim_row : ObservationEnvelope → String → String → Col → ClaimRow Col
  new_claim_row e id key json = record {
    asset_id = id;
    source_key = key;
    asset_json = json;
    site_id = e.site_id;
    collector_id = e.collector_id;
    plugin = e.plugin;
    first_observation_id = e.observation_id;
    last_observation_id = e.observation_id;
    first_observed_at = format_time e.observed_at;
    last_observed_at = format_time e.observed_at;
  }

  -- What the row is set to, from the two times that it was found with.
  unfoldable pub merged_claim : ObservationEnvelope → Col → ClaimRow Col → ℕ → ℕ → ClaimUpdate Col
  merged_claim e json r first last =
      let earlier = ltb e.observed_at first in
      let latest = not (ltb e.observed_at last) in
      record {
        asset_json = if latest then json else r.asset_json;
        first_observation_id = if earlier then e.observation_id else r.first_observation_id;
        last_observation_id = if latest then e.observation_id else r.last_observation_id;
        first_observed_at = format_time (if earlier then e.observed_at else first);
        last_observed_at = format_time (if latest then e.observed_at else last);
      }

  unfoldable pub revocation_row : CertificateRevocation → RevocationRow Col
  revocation_row r = record {
    serial_number = r.serial_number;
    reason = r.reason;
    revoked_at = format_time r.revoked_at;
  }

  -- `ON CONFLICT(serial_number) DO NOTHING`, with the rows affected.
  unfoldable pub insert_revocation :
      CertificateRevocation → Tables Col → Option (RevocationRow Col) → Tables Col × Bool
  insert_revocation r t (some old) = (t, false)
  insert_revocation r t none =
      (record t { revocations = store t.revocations r.serial_number (revocation_row r) }, true)

module _ {Col : Type 0} (row : RowText Col) (driver : ℕ → Bool) where
  open row use {format_time, parse_time}

  -- The two branches of `saveAssetClaim`: no row, and a row.
  unfoldable pub write_claim :
      ObservationEnvelope
      → String
      → String
      → Col
      → Option (ClaimRow Col)
      → Action (Connection Col) (Unit {0})
  write_claim e id key json none = exec driver (λ t.
      some (record t { asset_claims = t.asset_claims ++ new_claim_row row e id key json ∷ [] }))
  write_claim e id key json (some r) = do
    first ← lift (parse_time r.first_observed_at)
    last ← lift (parse_time r.last_observed_at)
    exec driver (λ t. some (record t {
      asset_claims = update_claims t.asset_claims id key (merged_claim row e json r first last);
    }))

  unfoldable pub upsert_schedule : Schedule → Action (Connection Col) (Unit {0})
  upsert_schedule s = exec driver (λ t. some (record t {
    schedules = store t.schedules s.collector_id (record {
      collector_id = s.collector_id;
      job_type = s.job_type;
      interval_seconds = s.interval_seconds;
      next_run_at = format_time s.next_run_at;
      created_at = elim (lookup t.schedules s.collector_id) [
        | some old ↦ old.created_at
        | none ↦ format_time s.created_at
      ];
      updated_at = format_time s.updated_at;
    });
  }))

  unfoldable pub delete_schedule : String → Action (Connection Col) (Unit {0})
  delete_schedule id = exec driver (λ t. some (record t { schedules = delete t.schedules id }))

  unfoldable pub revoke_certificate : CertificateRevocation → Action (Connection Col) Bool
  revoke_certificate r =
      exec_affecting driver (λ t. insert_revocation row r t (lookup t.revocations r.serial_number))

  module _ (audit : AuditText) where
    unfoldable pub append_entry : ℕ → Event → Col → Action (Connection Col) Entry
    append_entry now e json = do
      last ← query driver (λ t. last_link (newest_entry t.audit_entries))
      let entry = chain audit last.1 (last.0 + 1) now e
      exec driver (λ t.
          elim (insert_entry t.audit_entries (record {
            sequence = entry.sequence;
            recorded_at = format_time entry.recorded_at;
            action = entry.action;
            actor = entry.actor;
            detail_json = json;
            prev_hash = entry.prev_hash;
            hash = entry.hash;
          })) [ none ↦ none | some rows ↦ some (record t { audit_entries = rows }) ])
      return entry

    unfoldable pub append_audit_event : ℕ → Event → Action (Connection Col) Entry
    append_audit_event now e = do
      json ← lift (row.detail.marshal e.detail)
      in_transaction driver (append_entry now e json)

  module _ (text : StoreText) where
    unfoldable pub save_asset_claim :
        ObservationEnvelope → String → Col → Action (Connection Col) (Unit {0})
    save_asset_claim e id json = do
      let key = asset_source_key text e.site_id e.collector_id e.plugin
      found ← query driver (λ t. find_claim t.asset_claims id key)
      write_claim e id key json found

    unfoldable pub save_assets :
        ObservationEnvelope → List Asset → Action (Connection Col) (Unit {0})
    save_assets e [] = return tt
    save_assets e (a ∷ rest) = do
      json ← lift (row.asset.marshal a)
      exec driver (λ t. some (save_asset_row row e (stable_asset_id text a) json t))
      save_asset_claim e (stable_asset_id text a) json
      save_assets e rest

    unfoldable pub save_relationships :
        ObservationEnvelope → List Relationship → Action (Connection Col) (Unit {0})
    save_relationships e [] = return tt
    save_relationships e (r ∷ rest) = do
      json ← lift (row.relationship.marshal r)
      exec driver (λ t. some (save_relationship_row row e (stable_relationship_id text r) json t))
      save_relationships e rest

    unfoldable pub save_observation : ObservationEnvelope → Action (Connection Col) (Unit {0})
    save_observation e = do
      json ← lift (row.envelope.marshal e)
      in_transaction driver do
        exec driver (λ t. some (save_envelope_row row e json t))
        save_assets e e.assets
        save_relationships e e.relationships

-- ===== src/Store/Sqlite/Rows.antt =====
-- sqlite.go: the rows of the tables and how they are scanned. What encoding/json and the format of
-- a time put into a column is the parameter `RowText`; `received_at`, which nothing reads, is
-- left out.
use topo.Prelude.{
  ℕ, ◌≡◌, false, ◌&&◌, String, str_eq, Option, none, some, List, [], ◌∷◌, if◌then◌else◌, GoMap,
}
use topo.Audit.{Text, Entry}
use topo.Store.Model.{
  Asset, Relationship, ObservationEnvelope, AssetClaim, ResolvedRelationship, Schedule,
  CertificateRevocation,
}

-- `json.Marshal` and `json.Unmarshal` at one type.
pub record Codec (A Col : Type 0) : Type 0 where
  pub marshal : A → Option Col
  pub unmarshal : Col → Option A

pub record RowText (Col : Type 0) : Type 0 where
  pub envelope : Codec ObservationEnvelope Col
  pub asset : Codec Asset Col
  pub relationship : Codec Relationship Col
  pub detail : Codec (List (Text × Text)) Col
  -- `time.RFC3339Nano`
  pub format_time : ℕ → Col
  pub parse_time : Col → Option ℕ

-- What was marshalled is read back.
abbrev pub ReadsBack : {A Col : Type 0} → Codec A Col → Type 0
ReadsBack {A} {Col} c = (a : A) (col : Col) → c.marshal a ≡ some col → c.unmarshal col ≡ some a

-- What the repository relies on: JSON and times come back as they went in.
pub record RoundTrips {Col : Type 0} (row : RowText Col) : Type 0 where
  pub envelope : ReadsBack row.envelope
  pub asset : ReadsBack row.asset
  pub relationship : ReadsBack row.relationship
  pub detail : ReadsBack row.detail
  pub time : (t : ℕ) → row.parse_time (row.format_time t) ≡ some t

module _ (Col : Type 0) where
  pub record ObservationRow : Type 0 where
    pub envelope_json : Col
    pub observed_at : Col

  pub record AssetRow : Type 0 where
    pub asset_json : Col
    pub first_observation_id : String
    pub last_observation_id : String

  pub record ClaimRow : Type 0 where
    pub asset_id : String
    pub source_key : String
    pub asset_json : Col
    pub site_id : String
    pub collector_id : String
    pub plugin : String
    pub first_observation_id : String
    pub last_observation_id : String
    pub first_observed_at : Col
    pub last_observed_at : Col

  pub record RelationshipRow : Type 0 where
    pub id : String
    pub relationship_json : Col
    pub first_observation_id : String
    pub last_observation_id : String

  pub record AuditRow : Type 0 where
    pub sequence : ℕ
    pub recorded_at : Col
    pub action : Text
    pub actor : Text
    pub detail_json : Col
    pub prev_hash : Text
    pub hash : Text

  pub record ScheduleRow : Type 0 where
    pub collector_id : String
    pub job_type : String
    pub interval_seconds : ℕ
    pub next_run_at : Col
    pub created_at : Col
    pub updated_at : Col

  pub record RevocationRow : Type 0 where
    pub serial_number : String
    pub reason : String
    pub revoked_at : Col

  -- Tables with a text as their primary key are maps by it, in the order of insertion, which is
  -- that of `rowid` where no row is ever deleted.
  pub record Tables : Type 0 where
    pub user_version : ℕ
    pub observations : GoMap ObservationRow
    pub assets : GoMap AssetRow
    pub asset_claims : List ClaimRow
    pub relationships : GoMap RelationshipRow
    pub audit_entries : List AuditRow
    pub schedules : GoMap ScheduleRow
    pub revocations : GoMap RevocationRow

infixl 5 ◌>>=◌
abbrev ◌>>=◌ : {A B : Type 0} → Option A → (A → Option B) → Option B
none >>= k = none
some a >>= k = k a

module _ {Col : Type 0} (row : RowText Col) where
  open row use {parse_time}

  unfoldable pub scan_observation : ObservationRow Col → Option ObservationEnvelope
  scan_observation r = row.envelope.unmarshal r.envelope_json

  unfoldable pub scan_claim : ClaimRow Col → Option AssetClaim
  scan_claim r = do
    first ← parse_time r.first_observed_at
    last ← parse_time r.last_observed_at
    asset ← row.asset.unmarshal r.asset_json
    some (record {
      asset_id = r.asset_id;
      asset = asset;
      source = record {
        site_id = r.site_id;
        collector_id = r.collector_id;
        plugin = r.plugin;
        first_observation_id = r.first_observation_id;
        last_observation_id = r.last_observation_id;
        first_observed_at = first;
        last_observed_at = last;
        precedence_rank = 0;
        explicit_precedence = false;
      };
    })

  unfoldable pub scan_relationship : RelationshipRow Col → Option ResolvedRelationship
  scan_relationship r = do
    relationship ← row.relationship.unmarshal r.relationship_json
    some (record {
      id = r.id;
      relationship = relationship;
      first_observation_id = r.first_observation_id;
      last_observation_id = r.last_observation_id;
    })

  unfoldable pub scan_entry : AuditRow Col → Option Entry
  scan_entry r = do
    recorded_at ← parse_time r.recorded_at
    detail ← row.detail.unmarshal r.detail_json
    some (record {
      sequence = r.sequence;
      recorded_at = recorded_at;
      action = r.action;
      actor = r.actor;
      detail = detail;
      prev_hash = r.prev_hash;
      hash = r.hash;
    })

  unfoldable pub scan_schedule : ScheduleRow Col → Option Schedule
  scan_schedule r = do
    next_run_at ← parse_time r.next_run_at
    created_at ← parse_time r.created_at
    updated_at ← parse_time r.updated_at
    some (record {
      collector_id = r.collector_id;
      job_type = r.job_type;
      interval_seconds = r.interval_seconds;
      next_run_at = next_run_at;
      created_at = created_at;
      updated_at = updated_at;
    })

  unfoldable pub scan_revocation : RevocationRow Col → Option CertificateRevocation
  scan_revocation r = do
    revoked_at ← parse_time r.revoked_at
    some (record { serial_number = r.serial_number; reason = r.reason; revoked_at = revoked_at })

-- `for rows.Next()`: the first row that cannot be scanned ends the call with its error.
unfoldable pub scan_all : {R A : Type 0} → (R → Option A) → List R → Option (List A)
scan_all scan [] = some []
scan_all scan (r ∷ rest) = do a ← scan r; others ← scan_all scan rest; some (a ∷ others)

-- The claim of a source about an asset, by the primary key.
unfoldable pub find_claim :
    {Col : Type 0} → List (ClaimRow Col) → String → String → Option (ClaimRow Col)
find_claim [] id key = none
find_claim (r ∷ rest) id key =
    if str_eq id r.asset_id && str_eq key r.source_key then some r else find_claim rest id key

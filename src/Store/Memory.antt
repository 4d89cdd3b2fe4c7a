-- ===== src/Store/Memory.antt =====
-- internal/store/store.go: the repository in memory. Its methods never fail but for a schedule
-- that is not there, so the others return only the new store or the value.
pub mod Observations
pub mod Reports
pub mod Latest
pub mod Writes
mod Examples
use topo.Prelude.{
  ℕ, zero, suc, ◌+◌, ◌≡◌, Bool, true, false, not, ◌||◌, String, str_eq, Option, none, some, List,
  [], ◌∷◌, ◌++◌, map, length, ltb, if◌then◌else◌, GoMap, lookup, store, delete, sort_slice,
}
use topo.Audit.{AuditText, Event, Entry, append_audit_event}
use topo.Store.Model.{
  Asset, Relationship, ObservationEnvelope, str_less, StoreText, stable_asset_id,
  stable_relationship_id, asset_source_key, AssetSource, AssetClaim, ResolvedRelationship, Schedule,
  CertificateRevocation,
}

pub record Memory : Type 0 where
  pub observations : List ObservationEnvelope
  pub observation_index : GoMap ℕ
  pub asset_claims : GoMap (GoMap AssetClaim)
  pub stored_relationships : GoMap ResolvedRelationship
  pub audit_entries : List Entry
  pub schedules : GoMap Schedule
  pub revocations : GoMap CertificateRevocation

abbrev pub new_memory : Memory
new_memory = record {
  observations = [];
  observation_index = [];
  asset_claims = [];
  stored_relationships = [];
  audit_entries = [];
  schedules = [];
  revocations = [];
}

-- `list[i] = x`; the theorems of Observations show that the index is always in range.
unfoldable pub set_at {ℓ} : {A : Type ℓ} → List A → ℕ → A → List A
set_at [] i x = []
set_at (y ∷ ys) zero x = x ∷ ys
set_at (y ∷ ys) (suc i) x = y ∷ set_at ys i x

-- The observations and their index after an observation.
unfoldable pub save_envelope :
    List ObservationEnvelope → GoMap ℕ → ObservationEnvelope → List ObservationEnvelope × GoMap ℕ
save_envelope observations index e = elim (lookup index e.observation_id) [
  | some idx ↦ (set_at observations idx e, index)
  | none ↦ (observations ++ e ∷ [], store index e.observation_id (length observations))
]

-- A source that has not yet claimed the asset.
abbrev pub new_claim : String → ObservationEnvelope → Asset → AssetClaim
new_claim id e a = record {
  asset_id = id;
  asset = a;
  source = record {
    site_id = e.site_id;
    collector_id = e.collector_id;
    plugin = e.plugin;
    first_observation_id = e.observation_id;
    last_observation_id = e.observation_id;
    first_observed_at = e.observed_at;
    last_observed_at = e.observed_at;
    precedence_rank = 0;
    explicit_precedence = false;
  };
}

abbrev pub keep_first : ObservationEnvelope → AssetClaim → AssetClaim
keep_first e claim =
    if ltb e.observed_at claim.source.first_observed_at
    then record claim {
      source = record claim.source {
        first_observation_id = e.observation_id;
        first_observed_at = e.observed_at;
      };
    }
    else claim

abbrev pub keep_last : ObservationEnvelope → Asset → AssetClaim → AssetClaim
keep_last e a claim =
    if not (ltb e.observed_at claim.source.last_observed_at)
    then record claim {
      asset = a;
      source = record claim.source {
        last_observation_id = e.observation_id;
        last_observed_at = e.observed_at;
      };
    }
    else claim

-- The claim of a source after it has observed the asset once more.
unfoldable pub merge_claim : String → ObservationEnvelope → Asset → Option AssetClaim → AssetClaim
merge_claim id e a none = new_claim id e a
merge_claim id e a (some claim) = keep_last e a (keep_first e claim)

-- `m.assetClaims[id]`, an empty map where it is nil.
abbrev pub claims_of : Option (GoMap AssetClaim) → GoMap AssetClaim
claims_of none = []
claims_of (some claims) = claims

module _ (text : StoreText) where
  abbrev pub source_key : ObservationEnvelope → String
  source_key e = asset_source_key text e.site_id e.collector_id e.plugin

  unfoldable pub save_asset :
      GoMap (GoMap AssetClaim) → ObservationEnvelope → Asset → GoMap (GoMap AssetClaim)
  save_asset all e a =
      let id = stable_asset_id text a in
      let claims = claims_of (lookup all id) in
      store all id (store claims (source_key e) (merge_claim id e a (lookup claims (source_key e))))

  unfoldable pub save_assets :
      GoMap (GoMap AssetClaim) → ObservationEnvelope → List Asset → GoMap (GoMap AssetClaim)
  save_assets all e [] = all
  save_assets all e (a ∷ rest) = save_assets (save_asset all e a) e rest

  -- The relationship under an ID after an observation of it.
  abbrev pub merge_relationship :
      String
      → ObservationEnvelope
      → Relationship
      → Option ResolvedRelationship
      → ResolvedRelationship
  merge_relationship id e rel none = record {
    id = id;
    relationship = rel;
    first_observation_id = e.observation_id;
    last_observation_id = e.observation_id;
  }
  merge_relationship id e rel (some r) = record r {
    relationship = rel;
    last_observation_id = e.observation_id;
  }

  unfoldable pub save_relationships :
      GoMap ResolvedRelationship
      → ObservationEnvelope
      → List Relationship
      → GoMap ResolvedRelationship
  save_relationships all e [] = all
  save_relationships all e (rel ∷ rest) =
      let id = stable_relationship_id text rel in
      save_relationships (store all id (merge_relationship id e rel (lookup all id))) e rest

  unfoldable pub save_observation : Memory → ObservationEnvelope → Memory
  save_observation m e =
      let (observations, index) = save_envelope m.observations m.observation_index e in
      record m {
        observations = observations;
        observation_index = index;
        asset_claims = save_assets m.asset_claims e e.assets;
        stored_relationships = save_relationships m.stored_relationships e e.relationships;
      }

abbrev pub values {ℓ} : {V : Type ℓ} → GoMap V → List V
values [] = []
values ((k, v) ∷ rest) = v ∷ values rest

abbrev pub all_claims : GoMap (GoMap AssetClaim) → List AssetClaim
all_claims [] = []
all_claims ((id, claims) ∷ rest) = values claims ++ all_claims rest

abbrev pub claim_before : StoreText → AssetClaim → AssetClaim → Bool
claim_before text a b =
    if not (str_eq a.asset_id b.asset_id)
    then str_less a.asset_id b.asset_id
    else str_less (asset_source_key text a.source.site_id a.source.collector_id a.source.plugin)
        (asset_source_key text b.source.site_id b.source.collector_id b.source.plugin)

unfoldable pub list_asset_claims : StoreText → Memory → List AssetClaim
list_asset_claims text m = sort_slice (claim_before text) (all_claims m.asset_claims)

unfoldable pub list_relationships : Memory → List ResolvedRelationship
list_relationships m = sort_slice (λ a b. str_less a.id b.id) (values m.stored_relationships)

-- `AppendAuditEvent`
unfoldable pub append_event : AuditText → Memory → ℕ → Event → Memory
append_event text m now e = record m {
  audit_entries = append_audit_event text m.audit_entries now e;
}

unfoldable pub upsert_schedule : Memory → Schedule → Memory
upsert_schedule m sched = record m { schedules = store m.schedules sched.collector_id sched }

unfoldable pub list_schedules : Memory → List Schedule
list_schedules m = sort_slice (λ a b. str_less a.collector_id b.collector_id) (values m.schedules)

-- `none` is `ErrNotFound`.
unfoldable pub get_schedule : Memory → String → Option Schedule
get_schedule m collector_id = lookup m.schedules collector_id

unfoldable pub delete_schedule : Memory → String → Memory
delete_schedule m collector_id = record m { schedules = delete m.schedules collector_id }

unfoldable pub revoke_certificate : Memory → CertificateRevocation → Memory × Bool
revoke_certificate m revocation = elim (lookup m.revocations revocation.serial_number) [
  | some existing ↦ (m, false)
  | none ↦
      (record m { revocations = store m.revocations revocation.serial_number revocation }, true)
]

unfoldable pub list_certificate_revocations : Memory → List CertificateRevocation
list_certificate_revocations m =
    sort_slice (λ a b. str_less a.serial_number b.serial_number) (values m.revocations)

unfoldable pub is_certificate_revoked : Memory → String → Bool
is_certificate_revoked m serial = elim (lookup m.revocations serial) [
  | some _ ↦ true
  | none ↦ false
]

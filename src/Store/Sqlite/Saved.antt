-- ===== src/Store/Sqlite/Saved.antt =====
-- sqlite.go: `SaveObservation` against the repository in memory.
use topo.Prelude.{
  ℕ, ◌≡◌, refl, Bool, String, Option, none, some, List, [], ◌∷◌, arith, GoMap, lookup, store,
}
use topo.Store.Model.{
  Asset, Relationship, ObservationEnvelope, AssetClaim, StoreText, stable_asset_id,
  stable_relationship_id, ResolvedRelationship,
}
use topo.Store.Memory as Memory
use topo.Store.Memory.{Memory, save_envelope, merge_relationship}
use topo.Store.Memory.Observations.{save_envelope-upsert, save_envelope-IndexAgrees}
use topo.Store.Sqlite.Rows.{
  RowText, RoundTrips, ClaimRow, RelationshipRow, Tables, scan_relationship, scan_observation,
}
use topo.Store.Sqlite.Database.{exec}
use topo.Store.Sqlite.Saves.{
  save_envelope_row, save_asset_row, save_relationship_row, relationship_row, save_assets,
  save_relationships, save_observation,
}
use topo.Store.Sqlite.Leads.{
  Leads, Leads-return, Leads-lift, Leads-bind, Leads-exec, Leads-in_transaction, Leads-from,
  Leads-given,
}
use topo.Store.Sqlite.ClaimRows.{Same}
use topo.Store.Sqlite.Claims.{ClaimsAre, save_asset_claim-Leads}
use topo.Store.Sqlite.Tables.{store-ObservationsAre, store-Same}
use topo.Store.Sqlite.Represents.{OthersAre, Represents}

-- The tables that the statements on assets and claims leave alone.
module _ {Col : Type 0} (row : RowText Col) (m : Memory) where
  claims-OthersAre :
      (t : Tables Col) (rows : List (ClaimRow Col))
      → OthersAre row t m
      → OthersAre row (record t { asset_claims = rows }) m
  claims-OthersAre t rows r = record {
    observations = r.observations;
    index = r.index;
    relationships = r.relationships;
    audit_entries = r.audit_entries;
    schedules = r.schedules;
    revocations = r.revocations;
  }

  saved-OthersAre :
      (t : Tables Col) (all : GoMap (GoMap AssetClaim))
      → OthersAre row t m
      → OthersAre row t (record m { asset_claims = all })
  saved-OthersAre t all r = record {
    observations = r.observations;
    index = r.index;
    relationships = r.relationships;
    audit_entries = r.audit_entries;
    schedules = r.schedules;
    revocations = r.revocations;
  }

  asset-OthersAre :
      (t : Tables Col) (e : ObservationEnvelope) (id : String) (json : Col)
      → OthersAre row t m
      → OthersAre row (save_asset_row row e id json t) m
  unfolding save_asset_row
  asset-OthersAre t e id json r = record {
    observations = r.observations;
    index = r.index;
    relationships = r.relationships;
    audit_entries = r.audit_entries;
    schedules = r.schedules;
    revocations = r.revocations;
  }

module _ {Col : Type 0} (row : RowText Col) (trip : RoundTrips row) (driver : ℕ → Bool)
    (m : Memory) where
  envelope-Leads :
      (e : ObservationEnvelope) (json : Col)
      → row.envelope.marshal e ≡ some json
      → Leads
          (λ t. Represents row t m)
          (exec driver (λ t. some (save_envelope_row row e json t)))
          (λ _ t. Represents row t (record m {
            observations = (save_envelope m.observations m.observation_index e).0;
            observation_index = (save_envelope m.observations m.observation_index e).1;
          }))
  unfolding save_envelope_row scan_observation
  envelope-Leads e json h = Leads-exec driver _ _ λ t r. (
    record {
      observations = rw (save_envelope-upsert m.observations m.observation_index e r.0.index) (
          store-ObservationsAre row t.observations m.observations e _ r.0.observations
            (trip.envelope e json h));
      index =
          rw (save_envelope-upsert m.observations m.observation_index e r.0.index)
            (save_envelope-IndexAgrees m.observations m.observation_index e r.0.index);
      relationships = r.0.relationships;
      audit_entries = r.0.audit_entries;
      schedules = r.0.schedules;
      revocations = r.0.revocations;
    },
    r.1,
  )

module _ {Col : Type 0} (row : RowText Col) (trip : RoundTrips row) (driver : ℕ → Bool)
    (text : StoreText) (e : ObservationEnvelope) where
  save_assets-Leads :
      (m : Memory) (all : GoMap (GoMap AssetClaim)) (assets : List Asset)
      → Leads
          (λ t. OthersAre row t m × ClaimsAre row t.asset_claims all)
          (save_assets row driver text e assets)
          (λ _ t.
            OthersAre row t m × ClaimsAre row t.asset_claims (Memory.save_assets text all e assets))
  unfolding save_assets Memory.save_assets save_asset_row
  save_assets-Leads m all [] = Leads-return _ tt (λ t h. h)
  save_assets-Leads m all (a ∷ rest) =
      let Done : Unit {0} → Tables Col → Type 0 = λ _ t.
        OthersAre row t m
        × ClaimsAre row t.asset_claims (Memory.save_assets text all e (a ∷ rest)) in
      let Start : Tables Col → Type 0 = λ t. OthersAre row t m × ClaimsAre row t.asset_claims all in
      Leads-bind (λ json t. (row.asset.marshal a ≡ some json) × Start t) _ _ Done
        (Leads-lift _ _ (λ json p t h. (p, h)))
        λ json. Leads-given λ p.
          Leads-bind (λ _. Start) _ _ Done
            (Leads-exec driver _ _
              (λ t h. (asset-OthersAre row m t e (stable_asset_id text a) json h.0, h.1)))
            λ _.
              Leads-bind
                (λ _ t.
                  OthersAre row t m × ClaimsAre row t.asset_claims (Memory.save_asset text all e a))
                _ _ Done
                (save_asset_claim-Leads row trip text e a json p driver (λ t. OthersAre row t m)
                  (claims-OthersAre row m) all)
                λ _. save_assets-Leads m (Memory.save_asset text all e a) rest

  relationship_row-Same :
      (o : Option (RelationshipRow Col)) (m : Option ResolvedRelationship) (id : String)
      (r : Relationship) (json : Col)
      → row.relationship.marshal r ≡ some json
      → Same (scan_relationship row) o m
      → Same
          (scan_relationship row)
          (some (relationship_row row e id json o))
          (some (merge_relationship text id e r m))
  unfolding scan_relationship
  relationship_row-Same none m id r json p h =
      rw h (merge_relationship text id e r none, rw (trip.relationship r json p) refl, refl)
  relationship_row-Same (some old) m id r json p (v, scanned, found) =
      let parts : (v.id ≡ old.id) × (v.first_observation_id ≡ old.first_observation_id) =
        (ground arith, ground arith) in
      rw found (
        merge_relationship text id e r (some v),
        rw (trip.relationship r json p) (ground arith),
        refl,
      )

  relationship-Leads :
      (m : Memory) (all : GoMap ResolvedRelationship) (r : Relationship) (json : Col)
      → row.relationship.marshal r ≡ some json
      → Leads
          (λ t. Represents row t (record m { stored_relationships = all }))
          (exec driver
            (λ t. some (save_relationship_row row e (stable_relationship_id text r) json t)))
          (λ _ t. Represents row t (record m {
            stored_relationships = store all (stable_relationship_id text r) (
                merge_relationship text
                  (stable_relationship_id text r)
                  e
                  r
                  (lookup all (stable_relationship_id text r)));
          }))
  unfolding save_relationship_row scan_relationship
  relationship-Leads m all r json p = Leads-exec driver _ _ λ t h. (
    record {
      observations = h.0.observations;
      index = h.0.index;
      relationships =
          store-Same (Same (scan_relationship row)) t.relationships all
            (stable_relationship_id text r) _ _ h.0.relationships
            (relationship_row-Same (lookup t.relationships (stable_relationship_id text r))
              (lookup all (stable_relationship_id text r)) (stable_relationship_id text r) r json p
              (h.0.relationships (stable_relationship_id text r)));
      audit_entries = h.0.audit_entries;
      schedules = h.0.schedules;
      revocations = h.0.revocations;
    },
    h.1,
  )

  save_relationships-Leads :
      (m : Memory) (all : GoMap ResolvedRelationship) (rels : List Relationship)
      → Leads
          (λ t. Represents row t (record m { stored_relationships = all }))
          (save_relationships row driver text e rels)
          (λ _ t.
            Represents row t
              (record m { stored_relationships = Memory.save_relationships text all e rels }))
  unfolding save_relationships Memory.save_relationships
  save_relationships-Leads m all [] = Leads-return _ tt (λ t h. h)
  save_relationships-Leads m all (r ∷ rest) =
      let Done : Unit {0} → Tables Col → Type 0 = λ _ t.
        Represents row t
          (record m { stored_relationships = Memory.save_relationships text all e (r ∷ rest) }) in
      Leads-bind
        (λ json t.
          (row.relationship.marshal r ≡ some json)
          × Represents row t (record m { stored_relationships = all }))
        _ _ Done (Leads-lift _ _ (λ json p t h. (p, h)))
        λ json. Leads-given λ p. Leads-bind _ _ _ Done (relationship-Leads m all r json p) λ _.
          save_relationships-Leads m
            (store all (stable_relationship_id text r) (
              merge_relationship text (stable_relationship_id text r) e r
                (lookup all (stable_relationship_id text r))))
            rest

  -- `SaveObservation` does to the tables what the repository in memory does to its fields.
  pub save_observation-Leads :
      (m : Memory)
      → Leads
          (λ t. Represents row t m)
          (save_observation row driver text e)
          (λ _ t. Represents row t (Memory.save_observation text m e))
  unfolding save_observation Memory.save_observation
  save_observation-Leads m =
      let Done : Unit {0} → Tables Col → Type 0 =
        λ _ t. Represents row t (Memory.save_observation text m e) in
      let m' : Memory = record m {
        observations = (save_envelope m.observations m.observation_index e).0;
        observation_index = (save_envelope m.observations m.observation_index e).1;
      } in
      Leads-bind (λ json t. (row.envelope.marshal e ≡ some json) × Represents row t m) _ _ Done
        (Leads-lift _ _ (λ json p t h. (p, h)))
        λ json. Leads-given λ p. Leads-in_transaction driver Done _ (
          Leads-bind _ _ _ Done (envelope-Leads row trip driver m e json p) λ _.
            Leads-bind _ _ _ Done (save_assets-Leads m' m.asset_claims e.assets) λ _.
              Leads-from
                (λ t.
                  Represents row t (record m' {
                    asset_claims = Memory.save_assets text m.asset_claims e e.assets;
                  }))
                (λ t h. (saved-OthersAre row m' t _ h.0, h.1))
                (save_relationships-Leads
                  (record m' { asset_claims = Memory.save_assets text m.asset_claims e e.assets })
                  m.stored_relationships e.relationships))

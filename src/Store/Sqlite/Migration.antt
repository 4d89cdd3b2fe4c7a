-- ===== src/Store/Sqlite/Migration.antt =====
-- sqlite.go: the upgrade of a database to the schema of this version.
use topo.Prelude.{
  ℕ, zero, suc, ◌+◌, ◌-◌, ◌==◌, Bool, Option, none, some, List, [], ◌∷◌, ltb, if◌then◌else◌,
}
use topo.Prelude.Actions.{Action, return, fail, lift, ◌>>=◌, ◌>>◌}
use topo.Store.Model.{Asset, ObservationEnvelope, StoreText, stable_asset_id}
use topo.Store.Memory.{values}
use topo.Store.Sqlite.Rows.{RowText, Tables, scan_observation, scan_all}
use topo.Store.Sqlite.Database.{Connection, exec, query, in_transaction}
use topo.Store.Sqlite.Saves.{save_asset_claim}

abbrev pub schema_version : ℕ
schema_version = 5

-- `migrations[v]`: the tables that it creates are empty. `none` is a version without an entry.
unfoldable pub migrations : {Col : Type 0} → ℕ → Tables Col → Option (Tables Col)
migrations v t =
    if v == 1
    then some (record t { observations = []; assets = []; relationships = [] })
    else if v == 2
    then some (record t { audit_entries = [] })
    else if v == 3
    then some (record t { schedules = [] })
    else if v == 4
    then some (record t { revocations = [] })
    else if v == 5
    then some (record t { asset_claims = [] })
    else none

abbrev pub set_user_version : {Col : Type 0} → ℕ → Tables Col → Option (Tables Col)
set_user_version v t = some (record t { user_version = v })

module _ {Col : Type 0} (row : RowText Col) (driver : ℕ → Bool) (text : StoreText) where
  unfoldable pub backfill_assets :
      ObservationEnvelope → List Asset → Action (Connection Col) (Unit {0})
  backfill_assets e [] = return tt
  backfill_assets e (a ∷ rest) = do
    json ← lift (row.asset.marshal a)
    save_asset_claim row driver text e (stable_asset_id text a) json
    backfill_assets e rest

  unfoldable pub backfill_envelopes : List ObservationEnvelope → Action (Connection Col) (Unit {0})
  backfill_envelopes [] = return tt
  backfill_envelopes (e ∷ rest) = do backfill_assets e e.assets; backfill_envelopes rest

  unfoldable pub backfill_asset_claims : Action (Connection Col) (Unit {0})
  backfill_asset_claims = do
    rows ← query driver (λ t. values t.observations)
    envelopes ← lift (scan_all (scan_observation row) rows)
    backfill_envelopes envelopes

  -- The loop over the pending versions, with their number.
  unfoldable pub upgrade : ℕ → ℕ → Action (Connection Col) (Unit {0})
  upgrade zero v = return tt
  upgrade (suc pending) v = do
    exec driver (migrations (v + 1))
    if v + 1 == 5 then backfill_asset_claims else return tt
    exec driver (set_user_version (v + 1))
    upgrade pending (v + 1)

  unfoldable pub migrate : Action (Connection Col) (Unit {0})
  migrate = do
    version ← query driver (λ t. t.user_version)
    if ltb schema_version version
        then fail
        else if version == schema_version
        then return tt
        else in_transaction driver (upgrade (schema_version - version) version)

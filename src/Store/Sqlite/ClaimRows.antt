-- ===== src/Store/Sqlite/ClaimRows.antt =====
-- sqlite.go: the rows of asset_claims against the claims of the repository in memory.
use topo.Prelude.{
  ℕ, ◌≡◌, refl, ◌&&◌, String, str_eq, eq_iff, Option, none, some, List, [], ◌∷◌, ◌++◌, arith,
  if◌then◌else◌, inl, inr, Option-cases,
}
use topo.Store.Model.{Asset, ObservationEnvelope, AssetClaim}
use topo.Store.Memory.{merge_claim}
use topo.Store.Sqlite.Rows.{RowText, RoundTrips, ClaimRow, scan_claim, find_claim}
use topo.Store.Sqlite.Saves.{ClaimUpdate, updated, update_claims, new_claim_row, merged_claim}

-- A row is there when the value is, and is scanned as it.
abbrev pub Same : {R V : Type 0} → (R → Option V) → Option R → Option V → Type 0
Same scan none m = m ≡ none
Same {V} scan (some r) m = (v : V) × (scan r ≡ some v) × (m ≡ some v)

module _ {Col : Type 0} where
  pub find_claim-append :
      (rows : List (ClaimRow Col)) (new : ClaimRow Col) (id key : String)
      → find_claim (rows ++ new ∷ []) id key ≡ elim (find_claim rows id key) [
        | some r ↦ some r
        | none ↦ if str_eq id new.asset_id && str_eq key new.source_key then some new else none
      ]
  unfolding find_claim
  find_claim-append [] new id key = refl
  find_claim-append (r ∷ rest) new id key = ground (arith, find_claim-append rest new id key)

  pub find_claim-update :
      (rows : List (ClaimRow Col)) (i k id key : String) (u : ClaimUpdate Col)
      → find_claim (update_claims rows i k u) id key ≡ (
          if str_eq id i && str_eq key k
          then elim (find_claim rows id key) [ some r ↦ some (updated r u) | none ↦ none ]
          else find_claim rows id key)
  unfolding find_claim update_claims
  find_claim-update [] i k id key u = ground arith
  find_claim-update (r ∷ rest) i k id key u = ground (
    arith,
    find_claim-update rest i k id key u,
    eq_iff id i,
    eq_iff key k,
    eq_iff id r.asset_id,
    eq_iff i r.asset_id,
    eq_iff key r.source_key,
    eq_iff k r.source_key,
  )

module _ {Col : Type 0} (row : RowText Col) (trip : RoundTrips row) where
  open row use {format_time, parse_time}

  -- A claim with these fields, as a scan returns it.
  pub new_claim_row-scan :
      (e : ObservationEnvelope) (id key : String) (a : Asset) (json : Col)
      → row.asset.marshal a ≡ some json
      → scan_claim row (new_claim_row row e id key json) ≡ some (merge_claim id e a none)
  unfolding scan_claim new_claim_row merge_claim
  new_claim_row-scan e id key a json h = rw (trip.time e.observed_at, trip.asset a json h) refl

  pub merged_claim-scan :
      (e : ObservationEnvelope) (id : String) (a : Asset) (json : Col) (r : ClaimRow Col)
      (c : AssetClaim) (first last : ℕ) (x : Asset)
      → row.asset.marshal a ≡ some json
      → parse_time r.first_observed_at ≡ some first
      → parse_time r.last_observed_at ≡ some last
      → row.asset.unmarshal r.asset_json ≡ some x
      → scan_claim row r ≡ some c
      → scan_claim row (updated r (merged_claim row e json r first last))
        ≡ some (merge_claim id e a (some c))
  unfolding scan_claim merged_claim merge_claim
  merged_claim-scan e id a json r c first last x h p q s k =
      let whole = rw (p, q, s) at k in
      ground (arith, trip.time e.observed_at, trip.time first, trip.time last, trip.asset a json h)

  pub scan_claim-asset :
      (r : ClaimRow Col) (c : AssetClaim)
      → scan_claim row r ≡ some c
      → (x : Asset) × (row.asset.unmarshal r.asset_json ≡ some x)
  unfolding scan_claim
  scan_claim-asset r c h = elim (Option-cases (row.asset.unmarshal r.asset_json)) [
    | inr found ↦ found
    | inl gone ↦ ground arith
  ]

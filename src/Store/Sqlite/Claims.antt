-- ===== src/Store/Sqlite/Claims.antt =====
-- sqlite.go: `saveAssetClaim` against the repository in memory.
use topo.Prelude.{
  sym, ℕ, ◌≡◌, refl, Bool, true, false, ◌&&◌, String, str_eq, eq_iff, Option, none, some, List, [],
  ◌∷◌, ◌++◌, arith, GoMap, inl, inr, Bool-cases,
}
use topo.Store.Model.{Asset, ObservationEnvelope, AssetClaim, StoreText, stable_asset_id}
use topo.Store.Memory.{merge_claim, save_asset, source_key}
use topo.Store.Memory.Latest.{claim_at, save_asset-claim_at}
use topo.Store.Sqlite.Rows.{RowText, RoundTrips, ClaimRow, Tables, scan_claim, find_claim}
use topo.Store.Sqlite.Saves.{
  updated, update_claims, new_claim_row, merged_claim, write_claim, save_asset_claim,
}
use topo.Store.Sqlite.Leads.{Leads, Leads-bind, Leads-lift, Leads-query, Leads-exec}
use topo.Store.Sqlite.ClaimRows.{
  Same, find_claim-append, find_claim-update, new_claim_row-scan, merged_claim-scan,
  scan_claim-asset,
}

-- The rows are the claims of the sources, by asset and source.
abbrev pub ClaimsAre :
    {Col : Type 0} → RowText Col → List (ClaimRow Col) → GoMap (GoMap AssetClaim) → Type 0
ClaimsAre row rows all =
    (id key : String) → Same (scan_claim row) (find_claim rows id key) (claim_at all id key)

Same-of :
    {R V : Type 0} (scan : R → Option V) {o o' : Option R} {m m' : Option V}
    → o ≡ o'
    → m ≡ m'
    → Same scan o' m'
    → Same scan o m
Same-of scan p q h = rw (p, q) h

here : (id i key k : String) → str_eq i id && str_eq k key ≡ true → (i ≡ id) × (k ≡ key)
here id i key k h = (ground (arith, eq_iff i id), ground (arith, eq_iff k key))

module _ {Col : Type 0} (row : RowText Col) (trip : RoundTrips row) (text : StoreText)
    (e : ObservationEnvelope) (a : Asset) (json : Col)
    (marshalled : row.asset.marshal a ≡ some json) where
  open row use {parse_time}

  abbrev id : String
  id = stable_asset_id text a

  abbrev key : String
  key = source_key text e

  -- Another place has the claim that it had.
  elsewhere :
      (rows changed : List (ClaimRow Col)) (all : GoMap (GoMap AssetClaim)) (i k : String)
      → ClaimsAre row rows all
      → str_eq i id && str_eq k key ≡ false
      → find_claim changed i k ≡ find_claim rows i k
      → Same (scan_claim row) (find_claim changed i k) (claim_at (save_asset text all e a) i k)
  elsewhere rows changed all i k h other same =
      Same-of (scan_claim row) same (ground (arith, save_asset-claim_at text i k all e a, other))
        (h i k)

  insert-ClaimsAre :
      (rows : List (ClaimRow Col)) (all : GoMap (GoMap AssetClaim))
      → ClaimsAre row rows all
      → find_claim rows id key ≡ none
      → ClaimsAre row (rows ++ new_claim_row row e id key json ∷ []) (save_asset text all e a)
  unfolding new_claim_row
  insert-ClaimsAre rows all h fresh i k =
      let new = new_claim_row row e id key json in
      let appended = find_claim-append rows new i k in
      elim (Bool-cases (str_eq i id && str_eq k key)) [
        | inl same ↦
            let (p, q) = here id i key k same in
            let absent : claim_at all id key ≡ none = rw fresh at (h id key) in
            Same-of (scan_claim row) {o' = some new} {m' = some (merge_claim id e a none)}
              (ground (arith, appended, p, q, fresh, same))
              (ground (arith, save_asset-claim_at text i k all e a, p, q, absent, same))
              (
                merge_claim id e a none,
                new_claim_row-scan row trip e id key a json marshalled,
                refl,
              )
        | inr other ↦ elsewhere rows _ all i k h other (ground (arith, appended, other))
      ]

  update-ClaimsAre :
      (rows : List (ClaimRow Col)) (all : GoMap (GoMap AssetClaim)) (r : ClaimRow Col)
      (first last : ℕ)
      → ClaimsAre row rows all
      → find_claim rows id key ≡ some r
      → parse_time r.first_observed_at ≡ some first
      → parse_time r.last_observed_at ≡ some last
      → ClaimsAre row
          (update_claims rows id key (merged_claim row e json r first last))
          (save_asset text all e a)
  update-ClaimsAre rows all r first last h found p q i k =
      let u = merged_claim row e json r first last in
      let changed = find_claim-update rows id key i k u in
      elim (Bool-cases (str_eq i id && str_eq k key)) [
        | inl same ↦
            let (at_id, at_key) = here id i key k same in
            let (c, scanned, claimed) = rw found at (h id key) in
            let (x, read) = scan_claim-asset row trip r c scanned in
            Same-of (scan_claim row) {o' = some (updated r u)}
              {m' = some (merge_claim id e a (some c))}
              (ground (arith, changed, at_id, at_key, found, same))
              (ground (arith, save_asset-claim_at text i k all e a, at_id, at_key, claimed, same))
              (
                merge_claim id e a (some c),
                merged_claim-scan row trip e id a json r c first last x marshalled p q read scanned,
                refl,
              )
        | inr other ↦ elsewhere rows _ all i k h other (ground (arith, changed, other))
      ]

  module _ (driver : ℕ → Bool) (K : Tables Col → Type 0)
      (framed : (t : Tables Col) (rows : List (ClaimRow Col))
        → K t
        → K (record t { asset_claims = rows }))
      (all : GoMap (GoMap AssetClaim)) where
    abbrev Before : Tables Col → Type 0
    Before t = K t × ClaimsAre row t.asset_claims all

    abbrev After : Unit {0} → Tables Col → Type 0
    After _ t = K t × ClaimsAre row t.asset_claims (save_asset text all e a)

    write_claim-Leads :
        (found : Option (ClaimRow Col))
        → Leads
            (λ t. (found ≡ find_claim t.asset_claims id key) × Before t)
            (write_claim row driver e id key json found)
            After
    unfolding write_claim
    write_claim-Leads none =
        Leads-exec driver _ (After tt)
          λ t h. (framed t _ h.1.0, insert-ClaimsAre t.asset_claims all h.1.1 (sym h.0))
    write_claim-Leads (some r) =
        Leads-bind
          (λ first t.
            (parse_time r.first_observed_at ≡ some first)
            × (some r ≡ find_claim t.asset_claims id key)
            × Before t)
          _ _ After (Leads-lift _ _ (λ first p t h. (p, h.0, h.1)))
          λ first.
            Leads-bind
              (λ last t.
                (parse_time r.last_observed_at ≡ some last)
                × (parse_time r.first_observed_at ≡ some first)
                × (some r ≡ find_claim t.asset_claims id key)
                × Before t)
              _ _ After (Leads-lift _ _ (λ last q t h. (q, h.0, h.1, h.2)))
              λ last. Leads-exec driver _ (After tt) λ t h. (
                framed t _ h.3.0,
                update-ClaimsAre t.asset_claims all r first last h.3.1 (sym h.2) h.1 h.0,
              )

    -- `saveAssetClaim` does to the rows what the repository in memory does to its claims.
    pub save_asset_claim-Leads : Leads Before (save_asset_claim row driver text e id json) After
    unfolding save_asset_claim
    save_asset_claim-Leads =
        Leads-bind (λ found t. (found ≡ find_claim t.asset_claims id key) × Before t) _ _ After
          (Leads-query driver _ _ (λ t h. (refl, h))) write_claim-Leads

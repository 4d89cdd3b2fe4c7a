-- ===== src/Store/Memory/Latest.antt =====
-- store.go: the claim of each source is its earliest and latest view of the asset.
use mathlib.Core.List.{append_assoc, append-nil}
use topo.Prelude.{
  ◌≡◌, refl, ap, sym, ◌&&◌, String, str_eq, eq_iff, Option, none, some, List, [], ◌∷◌, ◌++◌, arith,
  if◌then◌else◌, GoMap, lookup, store, lookup-store, inl, inr, Bool-cases,
}
use topo.Store.Model.{Asset, AssetClaim, ObservationEnvelope, StoreText, stable_asset_id}
use topo.Store.Memory.{
  Memory, new_memory, merge_claim, claims_of, source_key, save_asset, save_assets, save_observation,
}
use topo.Store.Memory.Observations.{save_all}
use topo.Store.Memory.Reports.{Report, ClaimSpec, merge_claim-ClaimSpec}

-- The claim that a source has about an asset.
abbrev pub claim_at : GoMap (GoMap AssetClaim) → String → String → Option AssetClaim
claim_at all id key = lookup (claims_of (lookup all id)) key

claim_at-store :
    (all : GoMap (GoMap AssetClaim)) (i k id key : String) (claim : AssetClaim)
    → claim_at (store all i (store (claims_of (lookup all i)) k claim)) id key
      ≡ (if str_eq id i && str_eq key k then some claim else claim_at all id key)
claim_at-store all i k id key claim = elim (Bool-cases (str_eq id i)) [
  | inr other ↦ rw (lookup-store all i id (store (claims_of (lookup all i)) k claim), other) refl
  | inl same ↦
      rw (lookup-store all i id (store (claims_of (lookup all i)) k claim), same)
        (rw ((eq_iff id i).0 same, lookup-store (claims_of (lookup all i)) k key claim) refl)
]

module _ (text : StoreText) (id key : String) where
  -- The reports of the asset by the source, oldest first.
  abbrev reports_in : ObservationEnvelope → List Asset → List Report
  reports_in e [] = []
  reports_in e (a ∷ rest) =
      if str_eq id (stable_asset_id text a) && str_eq key (source_key text e)
      then (e, a) ∷ reports_in e rest
      else reports_in e rest

  abbrev pub reports : List ObservationEnvelope → List Report
  reports [] = []
  reports (e ∷ es) = reports_in e e.assets ++ reports es

  merge_all : Option AssetClaim → List Report → Option AssetClaim
  merge_all o [] = o
  merge_all o ((e, a) ∷ rest) = merge_all (some (merge_claim id e a o)) rest

  merge_all-append :
      (o : Option AssetClaim) (xs ys : List Report)
      → merge_all o (xs ++ ys) ≡ merge_all (merge_all o xs) ys
  unfolding merge_all
  merge_all-append o [] ys = refl
  merge_all-append o ((e, a) ∷ xs) ys = merge_all-append (some (merge_claim id e a o)) xs ys

  pub save_asset-claim_at :
      (all : GoMap (GoMap AssetClaim)) (e : ObservationEnvelope) (a : Asset)
      → claim_at (save_asset text all e a) id key ≡ (
          if str_eq id (stable_asset_id text a) && str_eq key (source_key text e)
          then some (merge_claim id e a (claim_at all id key))
          else claim_at all id key)
  unfolding save_asset
  save_asset-claim_at all e a = ground (
    arith,
    claim_at-store all (stable_asset_id text a) (source_key text e) id key (
        merge_claim (stable_asset_id text a) e a
          (claim_at all (stable_asset_id text a) (source_key text e))),
    eq_iff id (stable_asset_id text a),
    eq_iff key (source_key text e),
  )

  save_assets-merge_all :
      (all : GoMap (GoMap AssetClaim)) (e : ObservationEnvelope) (assets : List Asset)
      → claim_at (save_assets text all e assets) id key
        ≡ merge_all (claim_at all id key) (reports_in e assets)
  unfolding save_assets merge_all
  save_assets-merge_all all e [] = refl
  save_assets-merge_all all e (a ∷ rest) =
      let step = save_asset-claim_at all e a in
      elim (Bool-cases (str_eq id (stable_asset_id text a) && str_eq key (source_key text e))) [
        | inl mine ↦
            rw mine (rw (save_assets-merge_all (save_asset text all e a) e rest) (ground (arith)))
        | inr other ↦
            rw other (rw (save_assets-merge_all (save_asset text all e a) e rest) (ground arith))
      ]

  save_all-merge_all :
      (m : Memory) (es : List ObservationEnvelope)
      → claim_at (save_all text m es).asset_claims id key
        ≡ merge_all (claim_at m.asset_claims id key) (reports es)
  unfolding save_all merge_all save_observation
  save_all-merge_all m [] = refl
  save_all-merge_all m (e ∷ es) = rw (save_all-merge_all (save_observation text m e) es) (
      rw (merge_all-append (claim_at m.asset_claims id key) (reports_in e e.assets) (reports es))
        (ap (λ o. merge_all o (reports es)) (save_assets-merge_all m.asset_claims e e.assets)))

  merge_all-ClaimSpec :
      (o : Option AssetClaim) (before rs : List Report)
      → ClaimSpec o before
      → ClaimSpec (merge_all o rs) (before ++ rs)
  unfolding merge_all
  merge_all-ClaimSpec o before [] h = rw (append-nil before) h
  merge_all-ClaimSpec o before ((e, a) ∷ rest) h =
      rw (sym (append_assoc before ((e, a) ∷ []) rest)) (
        merge_all-ClaimSpec (some (merge_claim id e a o)) (before ++ (e, a) ∷ []) rest
          (merge_claim-ClaimSpec id o e a before h))

-- After any observations, a source has a claim about an asset when it has reported it. The claim
-- carries the asset and the observation of the latest report, by the time of observation and then
-- by the order of arrival, and the time and observation of the earliest one.
pub save_all-ClaimSpec :
    (text : StoreText) (es : List ObservationEnvelope) (id key : String)
    → ClaimSpec
        (claim_at (save_all text new_memory es).asset_claims id key)
        (reports text id key es)
unfolding lookup
save_all-ClaimSpec text es id key =
    rw (save_all-merge_all text id key new_memory es)
      (merge_all-ClaimSpec text id key none [] (reports text id key es) refl)

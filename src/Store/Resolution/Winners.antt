-- ===== src/Store/Resolution/Winners.antt =====
-- resolution.go: what the loop over the claims of an asset collects.
use topo.Prelude.{
  ℕ, ◌≤◌, ◌≡◌, refl, false, List, [], ◌∷◌, ◌++◌, map, arith, ltb, All, All-append, Sorted, ap, sym,
  ◌∙◌, Bool-cases, inl, inr,
}
use mathlib.Core.List.{append_assoc, append-nil}
use topo.Store.Model.AssetClaim.{source}
use topo.Store.Model.{AssetSource, AssetClaim, StoreText}
use topo.Store.Resolution.{ResolvedAsset, source_precedes, claim_precedes, add_source, add_sources}

-- The times include those of the source.
abbrev pub IsWithin : ℕ → ℕ → AssetSource → Type 0
IsWithin first last s = (first ≤ s.first_observed_at) × (s.last_observed_at ≤ last)

add_source-id : (r : ResolvedAsset) (c : AssetClaim) → (add_source r c).id ≡ r.id
unfolding add_source
add_source-id r c = elim (Bool-cases (ltb c.source.first_observed_at r.first_observed_at)) [
  | inl early ↦ elim (Bool-cases (ltb r.last_observed_at c.source.last_observed_at)) [
    | inl late ↦ rw (early, late) refl
    | inr not_late ↦ rw (early, not_late) refl
  ]
  | inr not_early ↦ elim (Bool-cases (ltb r.last_observed_at c.source.last_observed_at)) [
    | inl late ↦ rw (not_early, late) refl
    | inr not_late ↦ rw (not_early, not_late) refl
  ]
]

pub add_sources-id : (r : ResolvedAsset) (cs : List AssetClaim) → (add_sources r cs).id ≡ r.id
unfolding add_sources
add_sources-id r [] = refl
add_sources-id r (c ∷ rest) = add_sources-id (add_source r c) rest ∙ add_source-id r c

-- Adding a source keeps the list and the winner, and widens the times.
add_source-sources :
    (r : ResolvedAsset) (c : AssetClaim)
    → ((add_source r c).sources ≡ r.sources ++ c.source ∷ [])
      × ((add_source r c).winning_source ≡ r.winning_source)
      × ((add_source r c).first_observed_at ≤ r.first_observed_at)
      × (r.last_observed_at ≤ (add_source r c).last_observed_at)
      × IsWithin (add_source r c).first_observed_at (add_source r c).last_observed_at c.source
unfolding add_source
add_source-sources r c = elim (Bool-cases (ltb c.source.first_observed_at r.first_observed_at)) [
  | inl early ↦ elim (Bool-cases (ltb r.last_observed_at c.source.last_observed_at)) [
    | inl late ↦
        rw (early, late) (refl, refl, ground arith, ground arith, (ground arith, ground arith))
    | inr not_late ↦
        rw (early, not_late) (refl, refl, ground arith, ground arith, (ground arith, ground arith))
  ]
  | inr not_early ↦ elim (Bool-cases (ltb r.last_observed_at c.source.last_observed_at)) [
    | inl late ↦
        rw (not_early, late) (refl, refl, ground arith, ground arith, (ground arith, ground arith))
    | inr not_late ↦
        rw (not_early, not_late)
          (refl, refl, ground arith, ground arith, (ground arith, ground arith))
  ]
]

-- Every source of the list is within the times.
unfoldable pub AllWithin : ResolvedAsset → List AssetSource → Type 0
AllWithin r sources = All (IsWithin r.first_observed_at r.last_observed_at) sources

AllWithin-widen :
    (r t : ResolvedAsset) (sources : List AssetSource)
    → t.first_observed_at ≤ r.first_observed_at
    → r.last_observed_at ≤ t.last_observed_at
    → AllWithin r sources
    → AllWithin t sources
unfolding AllWithin
AllWithin-widen r t [] f l h = tt
AllWithin-widen r t (s ∷ rest) f l h =
    ((omega (arith, h.0.0, f), omega (arith, h.0.1, l)), AllWithin-widen r t rest f l h.1)

add_source-AllWithin :
    (r : ResolvedAsset) (c : AssetClaim)
    → AllWithin r r.sources
    → AllWithin (add_source r c) (add_source r c).sources
unfolding AllWithin
add_source-AllWithin r c h =
    let added = add_source-sources r c in
    rw (added.0) (
      All-append _ r.sources (c.source ∷ [])
        (AllWithin-widen r (add_source r c) r.sources added.2 added.3 h) (added.4, tt))

pub add_sources-sources :
    (r : ResolvedAsset) (cs : List AssetClaim)
    → AllWithin r r.sources
    → ((add_sources r cs).sources ≡ r.sources ++ map source cs)
      × ((add_sources r cs).winning_source ≡ r.winning_source)
      × AllWithin (add_sources r cs) (add_sources r cs).sources
unfolding add_sources
add_sources-sources r [] h = (sym (append-nil r.sources), refl, h)
add_sources-sources r (c ∷ rest) h =
    let added = add_source-sources r c in
    let more = add_sources-sources (add_source r c) rest (add_source-AllWithin r c h) in
    (
      more.0
          ∙ ap (λ xs. xs ++ map source rest) added.0
          ∙ append_assoc r.sources (c.source ∷ []) (map source rest),
      more.1 ∙ added.1,
      more.2,
    )

All-sources :
    (text : StoreText) (w : AssetClaim) (cs : List AssetClaim)
    → All (λ c. claim_precedes text c w ≡ false) cs
    → All (λ s. source_precedes text s w.source ≡ false) (map source cs)
All-sources text w [] h = tt
All-sources text w (c ∷ rest) h = (h.0, All-sources text w rest h.1)

pub Sorted-sources :
    (text : StoreText) (cs : List AssetClaim)
    → Sorted (claim_precedes text) cs
    → Sorted (source_precedes text) (map source cs)
Sorted-sources text [] h = tt
Sorted-sources text (c ∷ rest) h = (All-sources text c rest h.0, Sorted-sources text rest h.1)

-- ===== src/Store/Resolution/Resolved.antt =====
-- resolution.go: the resolved assets against a description of their sources and winners.
use topo.Prelude.{
  ◌<◌, ◌≤◌, ◌≡◌, ◌⊎◌, refl, sym, ap, ◌∙◌, subst, Bool, true, false, ◌&&◌, not, ◌==◌, String, str_eq,
  eq_iff, List, [], ◌∷◌, map, arith, length, ltb, All, All-map, All-append, to_count, count,
  count-sort_slice, Sorted, sort_slice, sort_slice-Sorted, GoMap, lookup, Bool-cases, Option-cases,
  inl, inr,
}
use topo.Store.Model.AssetClaim.{source}
use topo.Store.Model.{AssetSource, AssetClaim, StoreText, str_less, asset_source_key}
use topo.Store.Resolution.{
  ValueText, ResolvedAsset, set_keys, group_claims, source_precedes, claim_precedes, from_winner,
  resolve_sorted, resolve_groups, resolve_asset_claims,
}
use topo.Store.Resolution.Order.{claim_precedes-IsLess}
use topo.Store.Resolution.Winners.{AllWithin, add_sources-id, add_sources-sources, Sorted-sources}
use topo.Store.Resolution.Ranks.{source_ranked, count-with_ranks}
use topo.Store.Resolution.Complete.{
  group_at, is_there, with_ranks, count-group_claims, count-map_source, group_claims-Distinct,
  count-set_keys, count-resolve_groups,
}

-- A source that may stand before another: of lower rank, of the same rank and observed later, or of
-- the same rank and time and with a key that is not greater.
abbrev pub MayPrecede : StoreText → AssetSource → AssetSource → Type 0
MayPrecede text a b =
    (a.precedence_rank < b.precedence_rank)
    ⊎ ((a.precedence_rank ≡ b.precedence_rank)
        × ((b.last_observed_at < a.last_observed_at)
            ⊎ ((a.last_observed_at ≡ b.last_observed_at)
                × (str_less (asset_source_key text b.site_id b.collector_id b.plugin)
                      (asset_source_key text a.site_id a.collector_id a.plugin)
                    ≡ false))))

abbrev pub InOrder : StoreText → List AssetSource → Type 0
InOrder text [] = Unit
InOrder text (s ∷ rest) = All (MayPrecede text s) rest × InOrder text rest

-- A resolved asset: its sources are those of all claims of the asset, each as often as it is
-- claimed, with their ranks and in order; the first of them is the winner; and the times include
-- those of every source.
abbrev pub ResolvedSpec : StoreText → List AssetClaim → List String → ResolvedAsset → Type 0
ResolvedSpec text claims precedence r =
    ((p : AssetSource → Bool)
      → count p r.sources
        ≡ count (λ c. str_eq c.asset_id r.id && p (source_ranked precedence c.source)) claims)
    × InOrder text r.sources
    × ((others : List AssetSource) × (r.sources ≡ r.winning_source ∷ others))
    × All
        (λ s.
          (r.first_observed_at ≤ s.first_observed_at) × (s.last_observed_at ≤ r.last_observed_at))
        r.sources

not_before-MayPrecede :
    (text : StoreText) (a b : AssetSource) → source_precedes text b a ≡ false → MayPrecede text a b
not_before-MayPrecede text a b h = elim (Bool-cases (ltb a.precedence_rank b.precedence_rank)) [
  | inl lower ↦ inl (ground arith)
  | inr not_lower ↦
      let ranks : a.precedence_rank ≡ b.precedence_rank = ground arith in
      elim (Bool-cases (ltb b.last_observed_at a.last_observed_at)) [
        | inl fresher ↦ inr (ranks, inl (ground arith))
        | inr not_fresher ↦
            let times : a.last_observed_at ≡ b.last_observed_at = ground arith in
            inr (ranks, inr (times, ground arith))
      ]
]

Sorted-InOrder :
    (text : StoreText) (sources : List AssetSource)
    → Sorted (source_precedes text) sources
    → InOrder text sources
Sorted-InOrder text [] h = tt
Sorted-InOrder text (s ∷ rest) h = (
  All-map (λ t. source_precedes text t s ≡ false) (MayPrecede text s)
      (λ t not_before. not_before-MayPrecede text s t not_before) rest h.0,
  Sorted-InOrder text rest h.1,
)

count_all : (cs : List AssetClaim) → count (λ c. true) cs ≡ length cs
count_all [] = refl
count_all (c ∷ rest) = omega (arith, count_all rest)

count_of :
    (id : String) (cs : List AssetClaim)
    → count (λ c. str_eq c.asset_id id && true) cs ≡ count (λ c. str_eq c.asset_id id) cs
count_of id [] = refl
count_of id (c ∷ rest) = ground (arith, count_of id rest)

present :
    (groups : GoMap (List AssetClaim)) (id : String)
    → not (length (group_at groups id) == 0) ≡ true
    → to_count (is_there (lookup groups id)) ≡ 1
present groups id h = elim (Option-cases (lookup groups id)) [
  | inl gone ↦ ground (arith, rw gone at h)
  | inr (cs, there) ↦ rw there refl
]

-- What holds of every ID that is claimed holds of every claim.
All-claimed :
    (P : String → Type 0) (cs : List AssetClaim)
    → ((id : String) → not (count (λ c. str_eq c.asset_id id) cs == 0) ≡ true → P id)
    → All (λ c. P c.asset_id) cs
All-claimed P [] f = tt
All-claimed P (c ∷ rest) f = (
  f c.asset_id (ground (arith, eq_iff c.asset_id c.asset_id)),
  All-claimed P rest (λ id h. f id (ground (arith, h))),
)

module _ (text : StoreText) (values : ValueText) (claims : List AssetClaim)
    (precedence : List String) where
  -- The claims of an asset, and no others.
  abbrev IsGroup : String → List AssetClaim → Type 0
  IsGroup id cs =
      (p : AssetSource → Bool)
      → count (λ c. p c.source) cs
        ≡ count (λ c. str_eq c.asset_id id && p (source_ranked precedence c.source)) claims

  resolve_sorted-ResolvedSpec :
      (id : String) (cs : List AssetClaim)
      → Sorted (claim_precedes text) cs
      → IsGroup id cs
      → All (ResolvedSpec text claims precedence) (resolve_sorted text values id cs)
  unfolding resolve_sorted AllWithin
  resolve_sorted-ResolvedSpec id [] h g = tt
  resolve_sorted-ResolvedSpec id (winner ∷ rest) h g =
      let all = add_sources-sources (from_winner id winner) (winner ∷ rest) tt in
      let named = add_sources-id (from_winner id winner) (winner ∷ rest) in
      (
        (
          λ p.
              ap (count p) all.0
              ∙ count-map_source p (winner ∷ rest)
              ∙ subst
                  (λ i.
                    count (λ c. p c.source) (winner ∷ rest)
                    ≡ count (λ c. str_eq c.asset_id i && p (source_ranked precedence c.source))
                        claims)
                  (sym named) (g p),
          subst (InOrder text) (sym all.0) (
              Sorted-InOrder text (map source (winner ∷ rest))
                (Sorted-sources text (winner ∷ rest) h)),
          (map source rest, all.0 ∙ ap (λ w. w ∷ map source rest) (sym all.1)),
          all.2,
        ),
        tt,
      )

  resolve_groups-ResolvedSpec :
      (groups : GoMap (List AssetClaim)) (ids : List String)
      → ((id : String) → IsGroup id (group_at groups id))
      → All (ResolvedSpec text claims precedence) (resolve_groups text values groups ids)
  unfolding resolve_groups
  resolve_groups-ResolvedSpec groups [] g = tt
  resolve_groups-ResolvedSpec groups (id ∷ rest) g =
      All-append (ResolvedSpec text claims precedence) _ _
        (resolve_sorted-ResolvedSpec id _
          (sort_slice-Sorted (claim_precedes text) (claim_precedes-IsLess text) _)
          (λ p.
            count-sort_slice (claim_precedes text) (λ c. p c.source) (group_at groups id) ∙ g id p))
        (resolve_groups-ResolvedSpec groups rest g)

  abbrev all_groups : GoMap (List AssetClaim)
  all_groups = group_claims (with_ranks claims precedence) []

  all_groups-IsGroup : (id : String) → IsGroup id (group_at all_groups id)
  unfolding lookup
  all_groups-IsGroup id p = omega (
    arith,
    count-group_claims (with_ranks claims precedence) [] id p,
    count-with_ranks claims precedence id p,
  )

  -- An asset that has claims is resolved once.
  claimed_once :
      (id : String)
      → not (count (λ c. str_eq c.asset_id id) claims == 0) ≡ true
      → count (λ r. str_eq r.id id) (resolve_asset_claims text values claims precedence) ≡ 1
  unfolding resolve_asset_claims
  claimed_once id h =
      let filled : not (length (group_at all_groups id) == 0) ≡ true = ground (
        arith,
        h,
        all_groups-IsGroup id (λ s. true),
        count_all (group_at all_groups id),
        count_of id claims,
      ) in
      count-resolve_groups text values all_groups id (sort_slice str_less (set_keys all_groups))
        filled
      ∙ count-sort_slice str_less (λ k. str_eq k id) (set_keys all_groups)
      ∙ count-set_keys all_groups id (group_claims-Distinct (with_ranks claims precedence) [] tt)
      ∙ present all_groups id filled

  -- Whatever the claims and the precedence are, each resolved asset has as sources those of all
  -- claims of the asset, each with the rank that the precedence gives its plugin, in the order of
  -- rank, then freshness, then key; the first of them is its winner; its times of first and last
  -- observation include those of every source; and every claimed asset is resolved exactly once.
  pub resolve_asset_claims-ResolvedSpec :
      All (ResolvedSpec text claims precedence) (resolve_asset_claims text values claims precedence)
      × All
          (λ c.
            count (λ r. str_eq r.id c.asset_id) (resolve_asset_claims text values claims precedence)
            ≡ 1)
          claims
  unfolding resolve_asset_claims
  resolve_asset_claims-ResolvedSpec = (
    resolve_groups-ResolvedSpec all_groups _ all_groups-IsGroup,
    All-claimed
        (λ id. count (λ r. str_eq r.id id) (resolve_asset_claims text values claims precedence) ≡ 1)
        claims claimed_once,
  )

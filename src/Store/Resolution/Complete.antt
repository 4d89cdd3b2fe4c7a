-- ===== src/Store/Resolution/Complete.antt =====
-- resolution.go: every claim is a source of the one resolved asset that has its ID.
use topo.Prelude.{
  ◌+◌, ◌≡◌, refl, sym, Bool, true, false, ◌&&◌, not, ◌==◌, String, str_eq, eq_iff, Option, none,
  some, List, [], ◌∷◌, ◌++◌, map, arith, length, to_count, count, count-append, GoMap, lookup,
  store, lookup-store_self, lookup-store_ne, subst, Distinct, store-Distinct, sort_slice,
  length-sort_slice, Bool-cases, inl, inr,
}
use topo.Store.Model.AssetClaim.{source}
use topo.Store.Model.{AssetSource, AssetClaim, StoreText}
use topo.Store.Resolution.{
  ValueText, or_zero, set_keys, ranks_from, ranked, group_claims, claim_precedes, from_winner,
  resolve_sorted, resolve_groups,
}
use topo.Store.Resolution.Winners.{add_sources-id}

-- Whether a claim is of the asset and has a source that passes.
abbrev pub of_asset : String → (AssetSource → Bool) → AssetClaim → Bool
of_asset id p c = str_eq c.asset_id id && p c.source

abbrev pub group_at : GoMap (List AssetClaim) → String → List AssetClaim
group_at groups id = or_zero [] (lookup groups id)

count-store_group :
    (c : AssetClaim) (groups : GoMap (List AssetClaim)) (id : String) (p : AssetSource → Bool)
    → count
        (λ x. p x.source)
        (group_at (store groups c.asset_id (group_at groups c.asset_id ++ c ∷ [])) id)
      ≡ count (λ x. p x.source) (group_at groups id) + to_count (of_asset id p c)
count-store_group c groups id p =
    let longer = group_at groups c.asset_id ++ c ∷ [] in
    elim (Bool-cases (str_eq c.asset_id id)) [
      | inl same ↦
          subst
            (λ i.
              count (λ x. p x.source) (group_at (store groups c.asset_id longer) i)
              ≡ count (λ x. p x.source) (group_at groups i) + to_count (of_asset i p c))
            ((eq_iff c.asset_id id).0 same)
            (rw (lookup-store_self groups c.asset_id longer) (
              ground (
                arith,
                count-append (λ x. p x.source) (group_at groups c.asset_id) (c ∷ []),
                eq_iff c.asset_id c.asset_id,
              )))
      | inr differs ↦
          rw
            (lookup-store_ne groups c.asset_id id longer
              (λ e. ground (arith, eq_iff c.asset_id id, sym e)))
            (rw differs (omega arith))
    ]

-- The group of an asset has its claims, each as often as the list of claims has it.
pub count-group_claims :
    (cs : List AssetClaim) (groups : GoMap (List AssetClaim)) (id : String) (p : AssetSource → Bool)
    → count (λ c. p c.source) (group_at (group_claims cs groups) id)
      ≡ count (λ c. p c.source) (group_at groups id) + count (of_asset id p) cs
unfolding group_claims
count-group_claims [] groups id p = omega arith
count-group_claims (c ∷ rest) groups id p =
    let longer = group_at groups c.asset_id ++ c ∷ [] in
    let more = count-group_claims rest (store groups c.asset_id longer) id p in
    omega (arith, more, count-store_group c groups id p)

pub group_claims-Distinct :
    (cs : List AssetClaim) (groups : GoMap (List AssetClaim))
    → Distinct groups
    → Distinct (group_claims cs groups)
unfolding group_claims
group_claims-Distinct [] groups d = d
group_claims-Distinct (c ∷ rest) groups d =
    group_claims-Distinct rest _
      (store-Distinct groups c.asset_id (group_at groups c.asset_id ++ c ∷ []) d)

abbrev pub is_there {ℓ} : {A : Type ℓ} → Option A → Bool
is_there none = false
is_there (some a) = true

-- A name is once among the keys, where the map has it.
pub count-set_keys :
    (m : GoMap (List AssetClaim)) (id : String)
    → Distinct m
    → count (λ k. str_eq k id) (set_keys m) ≡ to_count (is_there (lookup m id))
unfolding lookup
count-set_keys [] id d = refl
count-set_keys ((k, v) ∷ rest) id (absent, d) =
    ground (arith, count-set_keys rest id d, eq_iff k id, eq_iff id k, absent)

-- The claims with the ranks that a list of plugins gives them.
abbrev pub with_ranks : List AssetClaim → List String → List AssetClaim
with_ranks claims precedence = map (ranked (ranks_from 0 precedence []) (length precedence)) claims

pub count-map_source :
    (p : AssetSource → Bool) (cs : List AssetClaim)
    → count p (map source cs) ≡ count (λ c. p c.source) cs
count-map_source p [] = refl
count-map_source p (c ∷ rest) = omega (arith, count-map_source p rest)

module _ (text : StoreText) (values : ValueText) where
  -- A group without claims has no resolved asset, and another has one, with its ID.
  count-resolve_sorted :
      (id k : String) (cs : List AssetClaim)
      → count (λ r. str_eq r.id id) (resolve_sorted text values k cs)
        ≡ to_count (str_eq k id && not (length cs == 0))
  unfolding resolve_sorted
  count-resolve_sorted id k [] = ground arith
  count-resolve_sorted id k (c ∷ cs) = rw (add_sources-id (from_winner k c) (c ∷ cs)) (ground arith)

  pub count-resolve_groups :
      (groups : GoMap (List AssetClaim)) (id : String) (ids : List String)
      → not (length (group_at groups id) == 0) ≡ true
      → count (λ r. str_eq r.id id) (resolve_groups text values groups ids)
        ≡ count (λ k. str_eq k id) ids
  unfolding resolve_groups
  count-resolve_groups groups id [] h = refl
  count-resolve_groups groups id (k ∷ rest) h =
      let here = sort_slice (claim_precedes text) (group_at groups k) in
      let joined =
        count-append (λ r. str_eq r.id id) (resolve_sorted text values k here)
          (resolve_groups text values groups rest) in
      let one = count-resolve_sorted id k here in
      let size = length-sort_slice (claim_precedes text) (group_at groups k) in
      let others = count-resolve_groups groups id rest h in
      elim (Bool-cases (str_eq k id)) [
        | inr differs ↦ ground (arith, joined, one, others)
        | inl same ↦
            let filled : not (length (group_at groups k) == 0) ≡ true =
              rw ((eq_iff k id).0 same) h in
            ground (arith, joined, one, others, size, filled)
      ]

-- ===== src/Store/Resolution/Examples.antt =====
-- Two sources of one host, of which the listed plugin wins over the fresher one.
use topo.Prelude.{
  ℕ, count, str_eq, ◌≡◌, refl, false, String, List, [], ◌∷◌, All, lookup, store, sort_slice,
  insert_sorted, bytes_less, map,
}
use topo.Store.Model.{AssetClaim, StoreText, asset_source_key}
use topo.Store.Resolution.{
  ValueText, resolve_asset_claims, resolve_groups, resolve_sorted, add_source, add_sources,
  ranks_from, ranked, group_claims,
}
use topo.Store.Resolution.Resolved.{ResolvedSpec, resolve_asset_claims-ResolvedSpec}

abbrev plain : StoreText
plain = record { joined_hash = λ parts. ""; tuple_hash = λ site collector plugin. plugin }

abbrev constant : ValueText
constant = record { json = λ present value. "" }

abbrev claim : String → ℕ → AssetClaim
claim plugin at = record {
  asset_id = "a1";
  asset = record {
    asset_type = "host";
    native_id = "m1";
    name = plugin;
    identifiers = [];
    attributes = [];
    evidence = [];
  };
  source = record {
    site_id = "dc";
    collector_id = "c1";
    plugin = plugin;
    first_observation_id = "o1";
    last_observation_id = "o1";
    first_observed_at = at;
    last_observed_at = at;
    precedence_rank = 0;
    explicit_precedence = false;
  };
}

abbrev claims : List AssetClaim
claims = claim "local" 20 ∷ claim "ssh-linux" 10 ∷ []

resolve_asset_claims-ResolvedSpec_example :
    All
      (ResolvedSpec plain claims ("ssh-linux" ∷ []))
      (resolve_asset_claims plain constant claims ("ssh-linux" ∷ []))
    × All
        (λ c.
          count
            (λ r. str_eq r.id c.asset_id)
            (resolve_asset_claims plain constant claims ("ssh-linux" ∷ []))
          ≡ 1)
        claims
resolve_asset_claims-ResolvedSpec_example =
    resolve_asset_claims-ResolvedSpec plain constant claims ("ssh-linux" ∷ [])

winner_is_listed :
    map
      (λ r. r.winning_source.plugin)
      (resolve_asset_claims plain constant claims ("ssh-linux" ∷ []))
    ≡ "ssh-linux" ∷ []
unfolding resolve_asset_claims resolve_groups resolve_sorted add_source add_sources ranks_from
    ranked group_claims lookup store sort_slice insert_sorted bytes_less asset_source_key
winner_is_listed = refl

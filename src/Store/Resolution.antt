-- ===== src/Store/Resolution.antt =====
-- internal/store/resolution.go: the view of each asset that the precedence of plugins gives.
pub mod Order
pub mod Winners
pub mod Complete
pub mod Ranks
pub mod Resolved
mod Examples
use Prim.Native.String.{◌++◌ as str_append}
use topo.Prelude.{
  ℕ, zero, suc, ◌+◌, ◌≡◌, Bool, true, false, not, ◌||◌, ◌==◌, String, str_eq, Option, none, some,
  List, [], ◌∷◌, ◌++◌, map, any, length, ltb, if◌then◌else◌, codes, GoMap, lookup, store,
  sort_slice, Result, ok, err,
}
use topo.Enrollment.Ids.{byte_len, is_space, is_control}
use topo.Store.Memory.{Memory, list_asset_claims}
use topo.Store.Model.{
  Value, null_value, text_value, Asset, AssetClaim, AssetSource, str_less, StoreText,
  asset_source_key,
}

abbrev pub max_source_precedence_entries : ℕ
max_source_precedence_entries = 64

abbrev pub max_plugin_name_bytes : ℕ
max_plugin_name_bytes = 128

pub data PrecedenceError : Type 0 where
  too_many_plugins empty_plugin plugin_too_long bad_character repeated_plugin : PrecedenceError

-- The loop over the plugins, with those that were seen.
check_plugins : List String → List String → Result PrecedenceError (Unit {0})
check_plugins seen [] = ok tt
check_plugins seen (plugin ∷ rest) =
    let others = check_plugins (plugin ∷ seen) rest in
    if str_eq plugin ""
    then err empty_plugin
    else if ltb max_plugin_name_bytes (byte_len (codes plugin))
    then err plugin_too_long
    else if any (λ c. is_control c || is_space c || c == 44) (codes plugin)
    then err bad_character
    else if any (str_eq plugin) seen
    then err repeated_plugin
    else others

pub validate_source_precedence : List String → Result PrecedenceError (Unit {0})
validate_source_precedence plugins =
    if ltb max_source_precedence_entries (length plugins)
    then err too_many_plugins
    else check_plugins [] plugins

-- One field of an asset; `field_text` is the name that a conflict shows.
pub data Field : Type 0 where
  name_field : Field
  identifier_field attribute_field : String → Field

pub field_text : Field → String
field_text name_field = "name"
field_text (identifier_field key) = str_append "identifiers." key
field_text (attribute_field key) = str_append "attributes." key

abbrev or_zero {ℓ} : {A : Type ℓ} → A → Option A → A
or_zero zero_value none = zero_value
or_zero zero_value (some a) = a

abbrev is_present {ℓ} : {A : Type ℓ} → Option A → Bool
is_present none = false
is_present (some a) = true

-- The value of the field, the zero of its type where it is absent, and whether it is present.
pub asset_field : Asset → Field → Value × Bool
asset_field asset name_field = (text_value asset.name, true)
asset_field asset (identifier_field key) = (
  text_value (or_zero "" (lookup asset.identifiers key)),
  is_present (lookup asset.identifiers key),
)
asset_field asset (attribute_field key) =
    (or_zero null_value (lookup asset.attributes key), is_present (lookup asset.attributes key))

pub record AssetConflictClaim : Type 0 where
  pub source : AssetSource
  pub present : Bool
  pub value : Value

pub record AssetConflict : Type 0 where
  pub field : String
  pub claims : List AssetConflictClaim

pub record ResolvedAsset : Type 0 where
  pub id : String
  pub asset : Asset
  pub first_observation_id : String
  pub last_observation_id : String
  pub first_observed_at : ℕ
  pub last_observed_at : ℕ
  pub winning_source : AssetSource
  pub sources : List AssetSource
  pub conflicts : List AssetConflict

-- The keys of a map, added to a set.
abbrev add_keys {ℓ} : {V : Type ℓ} → GoMap V → GoMap Bool → GoMap Bool
add_keys [] set = set
add_keys ((key, v) ∷ rest) set = add_keys rest (store set key true)

abbrev set_keys {ℓ} : {V : Type ℓ} → GoMap V → List String
set_keys [] = []
set_keys ((key, v) ∷ rest) = key ∷ set_keys rest

abbrev field_before : Field → Field → Bool
field_before a b = str_less (field_text a) (field_text b)

-- The sets `identifierKeys` and `attributeKeys` after the claims.
key_sets : List AssetClaim → GoMap Bool → GoMap Bool → GoMap Bool × GoMap Bool
key_sets [] ids attributes = (ids, attributes)
key_sets (claim ∷ rest) ids attributes =
    key_sets rest (add_keys claim.asset.identifiers ids)
      (add_keys claim.asset.attributes attributes)

pub conflict_fields : List AssetClaim → List Field
conflict_fields claims =
    let (ids, attributes) = key_sets claims [] [] in
    name_field
    ∷ (sort_slice field_before (map identifier_field (set_keys ids))
        ++ sort_slice field_before (map attribute_field (set_keys attributes)))

-- The JSON of a claim's value, as text.
pub record ValueText : Type 0 where
  pub json : Bool → Value → String

module _ (values : ValueText) where
  abbrev encoded : Field → AssetClaim → String
  encoded field claim =
      let (value, present) = asset_field claim.asset field in values.json present value

  -- The set of the values of a field.
  encoded_values : Field → List AssetClaim → GoMap Bool → GoMap Bool
  encoded_values field [] set = set
  encoded_values field (claim ∷ rest) set =
      encoded_values field rest (store set (encoded field claim) true)

  abbrev conflict_claim : Field → AssetClaim → AssetConflictClaim
  conflict_claim field claim =
      let (value, present) = asset_field claim.asset field in
      record { source = claim.source; present = present; value = value }

  conflicts_of : List AssetClaim → List Field → List AssetConflict
  conflicts_of claims [] = []
  conflicts_of claims (field ∷ rest) =
      let others = conflicts_of claims rest in
      if ltb 1 (length (encoded_values field claims []))
      then record { field = field_text field; claims = map (conflict_claim field) claims } ∷ others
      else others

  pub asset_conflicts : List AssetClaim → List AssetConflict
  asset_conflicts claims =
      if ltb (length claims) 2 then [] else conflicts_of claims (conflict_fields claims)

-- The ranks of the plugins of a list, from an index on.
pub ranks_from : ℕ → List String → GoMap ℕ → GoMap ℕ
ranks_from i [] ranks = ranks
ranks_from i (plugin ∷ rest) ranks = ranks_from (i + 1) rest (store ranks plugin i)

pub ranked : GoMap ℕ → ℕ → AssetClaim → AssetClaim
ranked ranks unlisted claim = record claim {
  source = record claim.source {
    precedence_rank = or_zero unlisted (lookup ranks claim.source.plugin);
    explicit_precedence = is_present (lookup ranks claim.source.plugin);
  };
}

pub group_claims : List AssetClaim → GoMap (List AssetClaim) → GoMap (List AssetClaim)
group_claims [] groups = groups
group_claims (claim ∷ rest) groups =
    group_claims rest
      (store groups claim.asset_id (or_zero [] (lookup groups claim.asset_id) ++ claim ∷ []))

-- `claimPrecedes`, which reads the sources alone.
abbrev pub source_precedes : StoreText → AssetSource → AssetSource → Bool
source_precedes text a b =
    if not (a.precedence_rank == b.precedence_rank)
    then ltb a.precedence_rank b.precedence_rank
    else if not (a.last_observed_at == b.last_observed_at)
    then ltb b.last_observed_at a.last_observed_at
    else str_less (asset_source_key text a.site_id a.collector_id a.plugin)
        (asset_source_key text b.site_id b.collector_id b.plugin)

abbrev pub claim_precedes : StoreText → AssetClaim → AssetClaim → Bool
claim_precedes text a b = source_precedes text a.source b.source

-- The loop over the claims of an asset, in order.
pub add_source : ResolvedAsset → AssetClaim → ResolvedAsset
add_source r claim =
    let listed = record r { sources = r.sources ++ claim.source ∷ [] } in
    let first =
      if ltb claim.source.first_observed_at listed.first_observed_at
      then record listed {
        first_observed_at = claim.source.first_observed_at;
        first_observation_id = claim.source.first_observation_id;
      }
      else listed in
    if ltb first.last_observed_at claim.source.last_observed_at
    then record first {
      last_observed_at = claim.source.last_observed_at;
      last_observation_id = claim.source.last_observation_id;
    }
    else first

pub add_sources : ResolvedAsset → List AssetClaim → ResolvedAsset
add_sources r [] = r
add_sources r (claim ∷ rest) = add_sources (add_source r claim) rest

abbrev pub from_winner : String → AssetClaim → ResolvedAsset
from_winner id winner = record {
  id = id;
  asset = winner.asset;
  first_observation_id = winner.source.first_observation_id;
  last_observation_id = winner.source.last_observation_id;
  first_observed_at = winner.source.first_observed_at;
  last_observed_at = winner.source.last_observed_at;
  winning_source = winner.source;
  sources = [];
  conflicts = [];
}

module _ (text : StoreText) (values : ValueText) where
  -- The claims in order; a group is never empty.
  pub resolve_sorted : String → List AssetClaim → List ResolvedAsset
  resolve_sorted id [] = []
  resolve_sorted id (winner ∷ rest) =
      record (add_sources (from_winner id winner) (winner ∷ rest)) {
        conflicts = asset_conflicts values (winner ∷ rest);
      }
      ∷ []

  pub resolve_groups : GoMap (List AssetClaim) → List String → List ResolvedAsset
  resolve_groups groups [] = []
  resolve_groups groups (id ∷ rest) =
      resolve_sorted id (sort_slice (claim_precedes text) (or_zero [] (lookup groups id)))
      ++ resolve_groups groups rest

  pub resolve_asset_claims : List AssetClaim → List String → List ResolvedAsset
  resolve_asset_claims claims precedence =
      let ranks = ranks_from 0 precedence [] in
      let groups = group_claims (map (ranked ranks (length precedence)) claims) [] in
      resolve_groups groups (sort_slice str_less (set_keys groups))

  -- `ListAssets` of the repository in memory.
  pub list_assets : Memory → List ResolvedAsset
  list_assets m = resolve_asset_claims (list_asset_claims text m) []

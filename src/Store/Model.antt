-- ===== src/Store/Model.antt =====
-- pkg/model/model.go and the records of internal/store/store.go. Times are nanoseconds.
use Prim.Native.String.{◌++◌ as str_append}
use topo.Prelude.{ℕ, Bool, String, codes, bytes_less, List, [], ◌∷◌, map, GoMap, sort_slice}

-- A value of type `any` that JSON can carry. A number is its text.
mutual
  pub data Value : Type 0 where
    null_value : Value
    bool_value : Bool → Value
    number_value text_value : String → Value
    list_value : Values → Value
    map_value : Members → Value

  pub data Values : Type 0 where
    no_values : Values
    one_value : Value → Values → Values

  pub data Members : Type 0 where
    no_members : Members
    one_member : String → Value → Members → Members

pub record Evidence : Type 0 where
  pub source : String
  pub collected_at : ℕ
  pub path : String
  -- The text of the number.
  pub confidence : String

pub record Asset : Type 0 where
  pub asset_type : String
  pub native_id : String
  pub name : String
  pub identifiers : GoMap String
  pub attributes : GoMap Value
  pub evidence : List Evidence

pub record Relationship : Type 0 where
  pub relationship_type : String
  pub from_native_id : String
  pub to_native_id : String
  pub evidence : List Evidence

pub record CollectionError : Type 0 where
  pub code : String
  pub message : String
  pub retryable : Bool

pub record ObservationEnvelope : Type 0 where
  pub schema_version : String
  pub observation_id : String
  pub site_id : String
  pub collector_id : String
  pub plugin : String
  pub job_id : String
  pub observed_at : ℕ
  pub assets : List Asset
  pub relationships : List Relationship
  pub errors : List CollectionError
  pub labels : GoMap String

-- `<` on texts.
abbrev pub str_less : String → String → Bool
str_less a b = bytes_less (codes a) (codes b)

-- SHA-256 as the program uses it: the hexadecimal text of the first half of the hash of texts
-- joined by zero bytes, and that of the whole hash of the JSON of three texts.
pub record StoreText : Type 0 where
  pub joined_hash : List String → String
  pub tuple_hash : String → String → String → String

abbrev pair_text : String × String → String
pair_text (k, v) = str_append k (str_append "=" v)

abbrev key_before : String × String → String × String → Bool
key_before a b = str_less a.0 b.0

module _ (text : StoreText) where
  open text use {joined_hash, tuple_hash}

  unfoldable pub stable_asset_id : Asset → String
  stable_asset_id a =
      joined_hash (a.asset_type ∷ a.native_id ∷ map pair_text (sort_slice key_before a.identifiers))

  unfoldable pub stable_relationship_id : Relationship → String
  stable_relationship_id r =
      joined_hash (r.relationship_type ∷ r.from_native_id ∷ r.to_native_id ∷ [])

  unfoldable pub asset_source_key : String → String → String → String
  asset_source_key site_id collector_id plugin = tuple_hash site_id collector_id plugin

-- AssetSource; the two fields on precedence are the ones that `ResolveAssetClaims` fills in.
pub record AssetSource : Type 0 where
  pub site_id : String
  pub collector_id : String
  pub plugin : String
  pub first_observation_id : String
  pub last_observation_id : String
  pub first_observed_at : ℕ
  pub last_observed_at : ℕ
  pub precedence_rank : ℕ
  pub explicit_precedence : Bool

pub record AssetClaim : Type 0 where
  pub asset_id : String
  pub asset : Asset
  pub source : AssetSource

pub record ResolvedRelationship : Type 0 where
  pub id : String
  pub relationship : Relationship
  pub first_observation_id : String
  pub last_observation_id : String

pub record Schedule : Type 0 where
  pub collector_id : String
  pub job_type : String
  pub interval_seconds : ℕ
  pub next_run_at : ℕ
  pub created_at : ℕ
  pub updated_at : ℕ

pub record CertificateRevocation : Type 0 where
  pub serial_number : String
  pub reason : String
  pub revoked_at : ℕ

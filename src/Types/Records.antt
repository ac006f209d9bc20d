-- ===== src/Types/Records.antt =====
-- src/types.rs: the shapes of the documents; src/build.rs: the config of a build.
use onym_discovery.Prelude.{ℕ, Text, Option, List}
use onym_discovery.Json.{Value}

pub record ProviderManifest : Type 0 where
  pub version : ℕ
  pub implementation_profile_id : Text
  pub provider_id : Text
  pub operator : Text
  pub seat : Text
  pub catalogs : List Value
  pub capabilities : List Text
  pub privacy_profile : Text
  pub privacy_profile_uri : Text
  pub offers : List Value
  pub valid_until : Text
  pub signature : Option Text

pub record CatalogDescriptor : Type 0 where
  pub catalog_id : Text
  pub snapshot : Text
  pub audience : Text
  pub seat_types : List Text
  pub policy : Text
  pub policy_uri : Text

pub record CatalogSnapshot : Type 0 where
  pub version : ℕ
  pub implementation_profile_id : Text
  pub catalog_id : Text
  pub provider_id : Text
  pub sequence : ℕ
  pub previous_digest : Option Text
  pub policy_digest : Text
  pub generated_at : Text
  pub expires_at : Text
  pub entries : List Value
  pub signature : Option Text

pub record EntryStatus : Type 0 where
  pub state : Text
  pub uri : Option Text

pub record ManifestRef : Type 0 where
  pub uri : Text
  pub digest : Text

pub record CatalogEntry : Type 0 where
  pub component_id : Text
  pub seat_type : Text
  pub manifest : ManifestRef
  pub operator : Text
  pub profiles : List Text
  pub evidence : List Value
  pub listed_at : Text
  pub reviewed_at : Option Text
  pub relationship : Text
  pub placement : Text
  pub status : Option EntryStatus

pub record SnapshotConfig : Type 0 where
  pub catalog_id : Text
  pub provider_id : Text
  pub policy_digest : Text
  pub expiry_days : ℕ
  pub entries : List Value

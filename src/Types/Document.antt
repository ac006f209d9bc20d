-- ===== src/Types/Document.antt =====
-- src/types.rs and src/build.rs, the documents: the fields of each struct, under their names in JSON.
pub mod Numbers
use onym_discovery.Prelude.{Text, text, Option, none, some, List, [], ◌∷◌}
use onym_discovery.Json.{Stream}
use onym_discovery.Crates.{Crates}
use onym_discovery.Types.Records.{ProviderManifest, CatalogSnapshot, SnapshotConfig}
use onym_discovery.Types.Decode.{
  Slots, slots, ◌>>=◌, required, optional, list_of, string_of, uint_of, value_of,
}

abbrev pub manifest_fields : List Text
unfolding text
manifest_fields =
    text "version"
    ∷ text "implementationProfileId"
    ∷ text "providerId"
    ∷ text "operator"
    ∷ text "seat"
    ∷ text "catalogs"
    ∷ text "capabilities"
    ∷ text "privacyProfile"
    ∷ text "privacyProfileUri"
    ∷ text "offers"
    ∷ text "validUntil"
    ∷ text "signature"
    ∷ []

manifest_of_slots : Crates → Slots → Option ProviderManifest
manifest_of_slots crates (o0 ∷ o1 ∷ o2 ∷ o3 ∷ o4 ∷ o5 ∷ o6 ∷ o7 ∷ o8 ∷ o9 ∷ o10 ∷ o11 ∷ []) = do
  version ← required (uint_of 32) o0
  implementation_profile_id ← required string_of o1
  provider_id ← required string_of o2
  operator ← required string_of o3
  seat ← required string_of o4
  catalogs ← required (list_of (value_of crates)) o5
  capabilities ← required (list_of string_of) o6
  privacy_profile ← required string_of o7
  privacy_profile_uri ← required string_of o8
  offers ← required (list_of (value_of crates)) o9
  valid_until ← required string_of o10
  signature ← optional string_of o11
  some (record {
    version = version;
    implementation_profile_id = implementation_profile_id;
    provider_id = provider_id;
    operator = operator;
    seat = seat;
    catalogs = catalogs;
    capabilities = capabilities;
    privacy_profile = privacy_profile;
    privacy_profile_uri = privacy_profile_uri;
    offers = offers;
    valid_until = valid_until;
    signature = signature;
  })
manifest_of_slots _ _ = none

unfoldable pub manifest_of : Crates → Stream → Option ProviderManifest
unfolding manifest_of_slots slots
manifest_of crates s = do os ← slots manifest_fields s; manifest_of_slots crates os

abbrev pub snapshot_fields : List Text
unfolding text
snapshot_fields =
    text "version"
    ∷ text "implementationProfileId"
    ∷ text "catalogId"
    ∷ text "providerId"
    ∷ text "sequence"
    ∷ text "previousDigest"
    ∷ text "policyDigest"
    ∷ text "generatedAt"
    ∷ text "expiresAt"
    ∷ text "entries"
    ∷ text "signature"
    ∷ []

snapshot_of_slots : Crates → Slots → Option CatalogSnapshot
snapshot_of_slots crates (o0 ∷ o1 ∷ o2 ∷ o3 ∷ o4 ∷ o5 ∷ o6 ∷ o7 ∷ o8 ∷ o9 ∷ o10 ∷ []) = do
  version ← required (uint_of 32) o0
  implementation_profile_id ← required string_of o1
  catalog_id ← required string_of o2
  provider_id ← required string_of o3
  sequence ← required (uint_of 64) o4
  previous_digest ← optional string_of o5
  policy_digest ← required string_of o6
  generated_at ← required string_of o7
  expires_at ← required string_of o8
  entries ← required (list_of (value_of crates)) o9
  signature ← optional string_of o10
  some (record {
    version = version;
    implementation_profile_id = implementation_profile_id;
    catalog_id = catalog_id;
    provider_id = provider_id;
    sequence = sequence;
    previous_digest = previous_digest;
    policy_digest = policy_digest;
    generated_at = generated_at;
    expires_at = expires_at;
    entries = entries;
    signature = signature;
  })
snapshot_of_slots _ _ = none

unfoldable pub snapshot_of : Crates → Stream → Option CatalogSnapshot
unfolding snapshot_of_slots slots
snapshot_of crates s = do os ← slots snapshot_fields s; snapshot_of_slots crates os

abbrev pub config_fields : List Text
unfolding text
config_fields =
    text "catalogId"
    ∷ text "providerId"
    ∷ text "policyDigest"
    ∷ text "expiryDays"
    ∷ text "entries"
    ∷ []

config_of_slots : Crates → Slots → Option SnapshotConfig
config_of_slots crates (o0 ∷ o1 ∷ o2 ∷ o3 ∷ o4 ∷ []) = do
  catalog_id ← required string_of o0
  provider_id ← required string_of o1
  policy_digest ← required string_of o2
  expiry_days ← required (uint_of 16) o3
  entries ← required (list_of (value_of crates)) o4
  some (record {
    catalog_id = catalog_id;
    provider_id = provider_id;
    policy_digest = policy_digest;
    expiry_days = expiry_days;
    entries = entries;
  })
config_of_slots _ _ = none

unfoldable pub config_of : Crates → Stream → Option SnapshotConfig
unfolding config_of_slots slots
config_of crates s = do os ← slots config_fields s; config_of_slots crates os

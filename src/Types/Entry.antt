-- ===== src/Types/Entry.antt =====
-- src/types.rs, the parts of the documents: the fields of each struct, under their names in JSON.
pub mod Named
use onym_discovery.Prelude.{Text, text, Option, none, some, List, [], ◌∷◌}
use onym_discovery.Json.{Stream}
use onym_discovery.Crates.{Crates}
use onym_discovery.Types.Records.{CatalogDescriptor, EntryStatus, ManifestRef, CatalogEntry}
use onym_discovery.Types.Decode.{
  Slots, slots, ◌>>=◌, required, optional, defaulted, list_of, string_of, value_of,
}

abbrev pub manifest_ref_fields : List Text
unfolding text
manifest_ref_fields = text "uri" ∷ text "digest" ∷ []

manifest_ref_of_slots : Slots → Option ManifestRef
manifest_ref_of_slots (o0 ∷ o1 ∷ []) = do
  uri ← required string_of o0
  digest ← required string_of o1
  some (record { uri = uri; digest = digest })
manifest_ref_of_slots _ = none

unfoldable pub manifest_ref_of : Stream → Option ManifestRef
unfolding manifest_ref_of_slots slots
manifest_ref_of s = do os ← slots manifest_ref_fields s; manifest_ref_of_slots os

abbrev pub status_fields : List Text
unfolding text
status_fields = text "state" ∷ text "uri" ∷ []

status_of_slots : Slots → Option EntryStatus
status_of_slots (o0 ∷ o1 ∷ []) = do
  state ← required string_of o0
  uri ← optional string_of o1
  some (record { state = state; uri = uri })
status_of_slots _ = none

unfoldable pub status_of : Stream → Option EntryStatus
unfolding status_of_slots slots
status_of s = do os ← slots status_fields s; status_of_slots os

abbrev pub descriptor_fields : List Text
unfolding text
descriptor_fields =
    text "catalogId"
    ∷ text "snapshot"
    ∷ text "audience"
    ∷ text "seatTypes"
    ∷ text "policy"
    ∷ text "policyUri"
    ∷ []

descriptor_of_slots : Slots → Option CatalogDescriptor
descriptor_of_slots (o0 ∷ o1 ∷ o2 ∷ o3 ∷ o4 ∷ o5 ∷ []) = do
  catalog_id ← required string_of o0
  snapshot ← required string_of o1
  audience ← required string_of o2
  seat_types ← required (list_of string_of) o3
  policy ← required string_of o4
  policy_uri ← required string_of o5
  some (record {
    catalog_id = catalog_id;
    snapshot = snapshot;
    audience = audience;
    seat_types = seat_types;
    policy = policy;
    policy_uri = policy_uri;
  })
descriptor_of_slots _ = none

unfoldable pub descriptor_of : Stream → Option CatalogDescriptor
unfolding descriptor_of_slots slots
descriptor_of s = do os ← slots descriptor_fields s; descriptor_of_slots os

abbrev pub entry_fields : List Text
unfolding text
entry_fields =
    text "componentId"
    ∷ text "seatType"
    ∷ text "manifest"
    ∷ text "operator"
    ∷ text "profiles"
    ∷ text "evidence"
    ∷ text "listedAt"
    ∷ text "reviewedAt"
    ∷ text "relationship"
    ∷ text "placement"
    ∷ text "status"
    ∷ []

entry_of_slots : Crates → Slots → Option CatalogEntry
entry_of_slots crates (o0 ∷ o1 ∷ o2 ∷ o3 ∷ o4 ∷ o5 ∷ o6 ∷ o7 ∷ o8 ∷ o9 ∷ o10 ∷ []) = do
  component_id ← required string_of o0
  seat_type ← required string_of o1
  manifest ← required manifest_ref_of o2
  operator ← required string_of o3
  profiles ← defaulted (list_of string_of) o4
  evidence ← defaulted (list_of (value_of crates)) o5
  listed_at ← required string_of o6
  reviewed_at ← optional string_of o7
  relationship ← required string_of o8
  placement ← required string_of o9
  status ← optional status_of o10
  some (record {
    component_id = component_id;
    seat_type = seat_type;
    manifest = manifest;
    operator = operator;
    profiles = profiles;
    evidence = evidence;
    listed_at = listed_at;
    reviewed_at = reviewed_at;
    relationship = relationship;
    placement = placement;
    status = status;
  })
entry_of_slots _ _ = none

unfoldable pub entry_of : Crates → Stream → Option CatalogEntry
unfolding entry_of_slots slots
entry_of crates s = do os ← slots entry_fields s; entry_of_slots crates os

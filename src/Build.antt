-- ===== src/Build.antt =====
-- src/build.rs: from an operator's config to a signed, chain-linked snapshot.
pub mod Chained
pub mod Checked
pub mod Plain
pub mod Parts
pub mod Read
pub mod Entry
pub mod Listed
pub mod Pinned
pub mod Timely
pub mod Placed
pub mod Accepted
pub mod Total
use onym_discovery.Prelude.{
  ℕ, suc, ◌+◌, ◌%◌, ◌^◌, Text, Bytes, text, Option, none, some, List, [], ◌∷◌, length, ltb,
  contains, is_empty, ◌==◌, ◌=ᵗ◌, ◌||◌, map,
}
use onym_discovery.Error.{
  malformed, internal, io, foreign, labelled, expiry_days, previous_for_other_catalog,
  entry_not_an_object, entry_manifest_not_an_object, manifest_too_large, entry_schema,
  unknown_relationship, unknown_placement, unknown_status, non_empty_evidence,
}
use onym_discovery.Result.{Result, ok, ◌>>=◌, ◌>>◌, fail_if, guard, ok_or, map_err}
use onym_discovery.Json.{
  Value, string, number, unsigned, array, object, Members, end, of_values, events, as_object,
}
use onym_discovery.Json
use onym_discovery.Crates.{Crates, Attempt, attempt, add_duration}
use onym_discovery.Types.Constants.{
  implementation_profile, max_destination_manifest_bytes, max_expiry_window_days, days,
  relationships, placements, status_states,
}
use onym_discovery.Types.Records.{SnapshotConfig, CatalogEntry, EntryStatus, ManifestRef}
use onym_discovery.Types.Entry.{entry_of}
use onym_discovery.Types.Fields.{
  validate_component_id, validate_catalog_id, validate_digest, parse_operator_key, format_timestamp,
}
use onym_discovery.Types.Uri.{validate_uri}
use onym_discovery.Sign.{sign_document}
use onym_discovery.Verify.State.{sha256_digest, read_previous}

pub record BuiltSnapshot : Type 0 where
  pub bytes : Bytes
  pub sequence : ℕ
  pub digest : Text

-- `json!` of an object: each member goes into the map in turn.
abbrev pub object_with : List (Text × Value) → Members → Members
object_with [] ms = ms
object_with ((k, v) ∷ kvs) ms = object_with kvs (Json.insert k v ms)

-- `#[serde(skip_serializing_if = "Option::is_none")]`
abbrev pub unless_none : Text → Option Value → List (Text × Value) → List (Text × Value)
unless_none k none kvs = kvs
unless_none k (some v) kvs = (k, v) ∷ kvs

abbrev pub option_map : {A : Type 0} → (A → Value) → Option A → Option Value
option_map f none = none
option_map f (some a) = some (f a)

abbrev pub ref_members : ManifestRef → List (Text × Value)
ref_members r = (text "uri", string r.uri) ∷ (text "digest", string r.digest) ∷ []

unfoldable pub value_of_ref : ManifestRef → Value
value_of_ref r = object (object_with (ref_members r) end)

abbrev pub status_members : EntryStatus → List (Text × Value)
status_members s =
    (text "state", string s.state) ∷ unless_none (text "uri") (option_map string s.uri) []

unfoldable pub value_of_status : EntryStatus → Value
value_of_status s = object (object_with (status_members s) end)

abbrev pub optional_members : Option Text → Option EntryStatus → List (Text × Value)
optional_members reviewed_at status =
    unless_none (text "reviewedAt") (option_map string reviewed_at)
      (unless_none (text "status") (option_map value_of_status status) [])

abbrev pub entry_members : CatalogEntry → List (Text × Value)
entry_members e =
    (text "componentId", string e.component_id)
    ∷ (text "seatType", string e.seat_type)
    ∷ (text "manifest", value_of_ref e.manifest)
    ∷ (text "operator", string e.operator)
    ∷ (text "profiles", array (of_values (map string e.profiles)))
    ∷ (text "evidence", array (of_values e.evidence))
    ∷ (text "listedAt", string e.listed_at)
    ∷ (text "relationship", string e.relationship)
    ∷ (text "placement", string e.placement)
    ∷ optional_members e.reviewed_at e.status

-- `serde_json::to_value(&decoded)`: the typed entry in the order of the map's keys.
unfoldable pub value_of_entry : CatalogEntry → Value
unfolding value_of_ref value_of_status
value_of_entry e = object (object_with (entry_members e) end)

-- `entry("manifest").or_insert_with(|| json!({})).as_object_mut()`
unfoldable pub manifest_members : Members → Result Members
manifest_members ms = elim (Json.get (text "manifest") ms) [
  | none ↦ ok end
  | some v ↦ ok_or (as_object v) (malformed entry_manifest_not_an_object)
]

unfoldable pub check_config : SnapshotConfig → Result (Unit {0})
check_config config = do
  validate_catalog_id config.catalog_id
  validate_component_id config.provider_id
  validate_digest config.policy_digest
  fail_if (config.expiry_days == 0 || ltb max_expiry_window_days config.expiry_days)
      (malformed expiry_days)

abbrev pub document_members :
    SnapshotConfig → ℕ → Option Text → Text → Text → List Value → List (Text × Value)
document_members config sequence previous_digest generated_at expires_at entries =
    (text "version", number (unsigned 1))
    ∷ (text "implementationProfileId", string implementation_profile)
    ∷ (text "catalogId", string config.catalog_id)
    ∷ (text "providerId", string config.provider_id)
    ∷ (text "sequence", number (unsigned sequence))
    ∷ (text "policyDigest", string config.policy_digest)
    ∷ (text "generatedAt", string generated_at)
    ∷ (text "expiresAt", string expires_at)
    ∷ (text "entries", array (of_values entries))
    ∷ unless_none (text "previousDigest") (option_map string previous_digest) []

-- The document that is signed.
unfoldable pub document : SnapshotConfig → ℕ → Option Text → Text → Text → List Value → Value
document config sequence previous_digest generated_at expires_at entries = object (
    object_with (document_members config sequence previous_digest generated_at expires_at entries)
      end)

module _ (crates : Crates) where
  -- The sequence and the previous digest of the new publication; `+ 1` on a `u64` wraps around
  -- in a release build.
  unfoldable pub position : SnapshotConfig → Option Bytes → Result (ℕ × Option Text)
  position config none = ok (1, none)
  position config (some raw) = do
    previous ← read_previous crates raw
    guard (previous.catalog_id =ᵗ config.catalog_id) (malformed previous_for_other_catalog)
    ok ((previous.sequence + 1) % 2 ^ 64, some (sha256_digest crates raw))

  unfoldable pub check_listed_status : Option EntryStatus → Result (Unit {0})
  check_listed_status none = ok tt
  check_listed_status (some status) = do
    guard (contains status_states status.state) (malformed (unknown_status status.state))
    elim status.uri [ none ↦ ok tt | some uri ↦ validate_uri crates uri ]

  -- The rules that the builder checks on a decoded entry.
  unfoldable pub check_listed : CatalogEntry → Result (Unit {0})
  unfolding check_listed_status
  check_listed entry = do
    validate_component_id entry.component_id
    validate_uri crates entry.manifest.uri
    validate_digest entry.manifest.digest
    parse_operator_key crates entry.operator
    guard (contains relationships entry.relationship)
        (malformed (unknown_relationship entry.relationship))
    guard (contains placements entry.placement) (malformed (unknown_placement entry.placement))
    guard (is_empty entry.evidence) (malformed non_empty_evidence)
    check_listed_status entry.status

-- `std::fs::read(config_dir.join(path))` is the parameter `read_file`.
module _ (crates : Crates) (read_file : Text → Attempt Bytes) where
  -- The digest of a local file takes the place of `manifestFile`.
  unfoldable pub pin_file : Text → Members → Result Members
  unfolding manifest_members
  pin_file path ms = do
    manifest_bytes ← attempt io (read_file path)
    fail_if (ltb max_destination_manifest_bytes (length manifest_bytes))
        (malformed (manifest_too_large path))
    manifest_ref ← manifest_members ms
    ok (
        Json.insert (text "manifest")
          (object (
            Json.insert (text "digest") (string (sha256_digest crates manifest_bytes))
              manifest_ref))
          ms)

  -- `remove("manifestFile")` takes any value out; only a string is a path.
  unfoldable pub pin : Members → Result Members
  unfolding pin_file
  pin ms =
      let rest = Json.remove (text "manifestFile") ms in
      elim (Json.get (text "manifestFile") ms) [
        | some (string path) ↦ pin_file path rest
        | _ ↦ ok rest
      ]

  unfoldable pub resolve_entry : Value → Result Value
  unfolding pin check_listed
  resolve_entry raw_entry = do
    members ← ok_or (as_object raw_entry) (malformed entry_not_an_object)
    pinned ← pin members
    decoded ← ok_or (entry_of crates (events (object pinned))) (malformed entry_schema)
    check_listed crates decoded
    ok (value_of_entry decoded)

  unfoldable pub resolve_entries : List Value → Result (List Value)
  unfolding resolve_entry
  resolve_entries [] = ok []
  resolve_entries (v ∷ vs) = do
    entry ← resolve_entry v
    entries ← resolve_entries vs
    ok (entry ∷ entries)

  unfoldable pub build_snapshot : SnapshotConfig → Option Bytes → ℕ → Bytes → Result BuiltSnapshot
  unfolding check_config position resolve_entries document
  build_snapshot config previous_raw generated_at key = do
    check_config config
    (sequence, previous_digest) ← position crates config previous_raw
    entries ← resolve_entries config.entries
    expires_at ← add_duration crates generated_at (days config.expiry_days)
    generated_text ← format_timestamp crates generated_at
    expires_text ← format_timestamp crates expires_at
    unsigned_bytes ←
        attempt (λ e. internal (foreign e))
          (crates.to_vec
            (document config sequence previous_digest generated_text expires_text entries))
    bytes ← sign_document crates unsigned_bytes key
    ok (record { bytes = bytes; sequence = sequence; digest = sha256_digest crates bytes })

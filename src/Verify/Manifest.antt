-- ===== src/Verify/Manifest.antt =====
-- src/verify.rs: `verify_manifest` and the lossy decoding of its catalog descriptors.
pub mod Lossy
pub mod Total
pub mod Trust
use onym_discovery.Prelude.{
  ℕ, suc, Text, Bytes, text, ◌&&◌, List, [], ◌∷◌, ◌++◌, length, is_empty, ltb, leb, ◌==◌, ◌=ᵗ◌,
  if◌then◌else◌,
}
use onym_discovery.Error.{
  Error, provider_manifest_invalid, shown, malformed, oversize, schema, unsupported_version,
  unsupported_profile, wrong_seat, unsigned, manifest_expired, duplicate_catalog_id,
  no_decodable_descriptors, descriptor_schema, empty_seat_types, star_not_alone,
}
use onym_discovery.Result.{Result, ok, err, panic, ◌>>=◌, ◌>>◌, fail_if, guard, map_err, ok_or}
use onym_discovery.Json.{Value, events}
use onym_discovery.Crates.{Crates, attempt, from_slice, decoded}
use onym_discovery.Types.Constants.{implementation_profile, max_manifest_bytes}
use onym_discovery.Types.Records.{ProviderManifest, CatalogDescriptor}
use onym_discovery.Types.Entry.{descriptor_of}
use onym_discovery.Types.Document.{manifest_of}
use onym_discovery.Types.Fields.{
  star, validate_component_id, validate_catalog_id, validate_digest, validate_seat_type_member,
  parse_operator_key, parse_timestamp,
}
use onym_discovery.Types.Uri.{validate_uri}
use onym_discovery.Canonical.{signing_bytes}
use onym_discovery.Prelude.{contains}
use onym_discovery.Keys
use onym_discovery.Verify.State.{VerifiedManifest}

abbrev pub discovery : Text
unfolding text
discovery = text "discovery"

abbrev pub public : Text
unfolding text
public = text "public"

abbrev pub invalid : Error → Error
invalid e = provider_manifest_invalid (shown e)

-- `for member in &descriptor.seat_types { validate_seat_type_member(member)?; }`
unfoldable pub validate_members : List Text → Result (Unit {0})
validate_members [] = ok tt
validate_members (m ∷ ms) = do validate_seat_type_member m; validate_members ms

-- What the loop over the descriptors gathers; `decoded_ids` is its `BTreeSet`.
pub record Scan : Type 0 where
  pub catalogs : List CatalogDescriptor
  pub skipped : List ℕ
  pub audience_skipped : List ℕ
  pub audience_skipped_ids : List Text
  pub decoded_ids : List Text

abbrev pub no_scan : Scan
no_scan = record {
  catalogs = [];
  skipped = [];
  audience_skipped = [];
  audience_skipped_ids = [];
  decoded_ids = [];
}

-- A descriptor that decoded, under an id that is new.
unfoldable pub place : ℕ → CatalogDescriptor → Scan → Scan
place index c sc =
    if c.audience =ᵗ public
    then record sc { catalogs = sc.catalogs ++ c ∷ []; decoded_ids = c.catalog_id ∷ sc.decoded_ids }
    else record sc {
      audience_skipped = sc.audience_skipped ++ index ∷ [];
      audience_skipped_ids = sc.audience_skipped_ids ++ c.catalog_id ∷ [];
      decoded_ids = c.catalog_id ∷ sc.decoded_ids;
    }

-- One round of the loop.
unfoldable pub scan_one : ℕ → Result CatalogDescriptor → Scan → Result Scan
scan_one index (ok c) sc = do
  fail_if (contains sc.decoded_ids c.catalog_id)
      (provider_manifest_invalid (duplicate_catalog_id c.catalog_id))
  ok (place index c sc)
scan_one index (err _) sc = ok (record sc { skipped = sc.skipped ++ index ∷ [] })
scan_one index panic sc = panic

module _ (crates : Crates) where
  -- `decode_descriptor` behind the decoding.
  unfoldable pub check_descriptor : CatalogDescriptor → Result CatalogDescriptor
  check_descriptor c = do
    validate_catalog_id c.catalog_id
    validate_uri crates c.snapshot
    validate_digest c.policy
    validate_uri crates c.policy_uri
    validate_members c.seat_types
    fail_if (is_empty c.seat_types) (malformed empty_seat_types)
    fail_if (contains c.seat_types star && ltb 1 (length c.seat_types)) (malformed star_not_alone)
    ok c

  unfoldable pub decode_descriptor : Value → Result CatalogDescriptor
  unfolding check_descriptor
  decode_descriptor value = do
    c ← ok_or (descriptor_of (events value)) (malformed descriptor_schema)
    check_descriptor c

  unfoldable pub scan_from : ℕ → List Value → Scan → Result Scan
  scan_from index [] sc = ok sc
  scan_from index (value ∷ vs) sc = do
    sc' ← scan_one index (decode_descriptor value) sc
    scan_from (suc index) vs sc'

  unfoldable pub check_header : ProviderManifest → Result (Unit {0})
  check_header m = do
    guard (m.version == 1) (provider_manifest_invalid (unsupported_version m.version))
    guard (m.implementation_profile_id =ᵗ implementation_profile)
        (provider_manifest_invalid (unsupported_profile m.implementation_profile_id))
    guard (m.seat =ᵗ discovery) (provider_manifest_invalid (wrong_seat m.seat))
    map_err invalid (validate_component_id m.provider_id)

  -- The manifest's signature by its own operator key.
  unfoldable pub authenticate : Bytes → ProviderManifest → Result (Unit {0})
  authenticate raw m = do
    operator_key ← map_err invalid (parse_operator_key crates m.operator)
    signature ← ok_or m.signature (provider_manifest_invalid unsigned)
    bytes ← map_err invalid (signing_bytes crates raw)
    map_err invalid (Keys.verify crates operator_key bytes signature)

  unfoldable pub check_validity : ProviderManifest → ℕ → Result (Unit {0})
  check_validity m now = do
    valid_until ← map_err invalid (parse_timestamp crates m.valid_until)
    fail_if (leb valid_until now) (provider_manifest_invalid (manifest_expired m.valid_until))

  -- What follows the signature and the expiry.
  unfoldable pub gather : ProviderManifest → Result VerifiedManifest
  gather m = do
    sc ← scan_from 0 m.catalogs no_scan
    fail_if (is_empty sc.decoded_ids) (provider_manifest_invalid no_decodable_descriptors)
    map_err invalid (validate_uri crates m.privacy_profile_uri)
    map_err invalid (validate_digest m.privacy_profile)
    ok (record {
      manifest = m;
      catalogs = sc.catalogs;
      skipped = sc.skipped;
      audience_skipped = sc.audience_skipped;
      audience_skipped_ids = sc.audience_skipped_ids;
    })

  -- The bound on the size, and the schema.
  unfoldable pub read_manifest : Bytes → Result ProviderManifest
  read_manifest raw = do
    fail_if (ltb max_manifest_bytes (length raw))
        (provider_manifest_invalid (oversize max_manifest_bytes))
    attempt (λ _. provider_manifest_invalid schema)
        (from_slice crates (λ st. decoded (manifest_of crates st)) raw)

  unfoldable pub verify_manifest : Bytes → ℕ → Result VerifiedManifest
  verify_manifest raw now = do
    m ← read_manifest raw
    check_header m
    authenticate raw m
    check_validity m now
    gather m

-- ===== src/Verify/Snapshot.antt =====
-- src/verify.rs: `verify_snapshot`, in the order of its checks.
pub mod Inversion
pub mod Trust
pub mod Accusations
pub mod Against
pub mod Total
pub mod Bounds
pub mod History
use onym_discovery.Prelude.{
  ℕ, ◌-◌, Bytes, Option, length, find, ltb, leb, ◌==◌, ◌=ᵗ◌, if◌then◌else◌,
}
use onym_discovery.Error.{
  snapshot_invalid, snapshot_expired, oversize, schema, unsupported_version, unsupported_profile,
  provider_mismatch, unsigned, expires_before_generated, window_too_long, future_dated,
  snapshot_expired_at, audience_skipped, not_declared,
}
use onym_discovery.Result.{Result, ok, ◌>>=◌, ◌>>◌, fail_if, guard, map_err, ok_or}
use onym_discovery.Crates.{Crates, attempt, from_slice, decoded, add_duration}
use onym_discovery.Types.Constants.{
  implementation_profile, max_snapshot_bytes, max_expiry_window, clock_skew,
}
use onym_discovery.Types.Records.{CatalogSnapshot, CatalogDescriptor}
use onym_discovery.Types.Document.{snapshot_of}
use onym_discovery.Types.Fields.{parse_operator_key, parse_timestamp}
use onym_discovery.Canonical.{signing_bytes}
use onym_discovery.Prelude.{contains}
use onym_discovery.Keys
use onym_discovery.Verify.State.{
  VerifiedManifest, RetainedCatalogState, VerifiedSnapshot, sha256_digest,
}
use onym_discovery.Verify.Chain.{
  invalid, check_retained, check_policy, check_sequence, compare_chain,
}
use onym_discovery.Verify.Entry.{decode_entries}

unfoldable pub check_header : CatalogSnapshot → VerifiedManifest → Result (Unit {0})
check_header s m = do
  guard (s.version == 1) (snapshot_invalid (unsupported_version s.version))
  guard (s.implementation_profile_id =ᵗ implementation_profile)
      (snapshot_invalid (unsupported_profile s.implementation_profile_id))
  guard (s.provider_id =ᵗ m.manifest.provider_id)
      (snapshot_invalid (provider_mismatch s.provider_id m.manifest.provider_id))

unfoldable pub find_descriptor : CatalogSnapshot → VerifiedManifest → Result CatalogDescriptor
find_descriptor s m = ok_or (find (λ c. c.catalog_id =ᵗ s.catalog_id) m.catalogs) (
    if contains m.audience_skipped_ids s.catalog_id
    then snapshot_invalid (audience_skipped s.catalog_id)
    else snapshot_invalid (not_declared s.catalog_id))

module _ (crates : Crates) where
  -- The operator's signature over the canonical form of the exact bytes.
  unfoldable pub authenticate : Bytes → CatalogSnapshot → VerifiedManifest → Result (Unit {0})
  authenticate raw s m = do
    operator_key ← map_err invalid (parse_operator_key crates m.manifest.operator)
    signature ← ok_or s.signature (snapshot_invalid unsigned)
    bytes ← map_err invalid (signing_bytes crates raw)
    map_err invalid (Keys.verify crates operator_key bytes signature)

  unfoldable pub check_freshness : CatalogSnapshot → ℕ → Result (Unit {0})
  check_freshness s now = do
    generated_at ← map_err invalid (parse_timestamp crates s.generated_at)
    expires_at ← map_err invalid (parse_timestamp crates s.expires_at)
    fail_if (leb expires_at generated_at) (snapshot_invalid expires_before_generated)
    fail_if (ltb max_expiry_window (expires_at - generated_at)) (snapshot_invalid window_too_long)
    latest ← add_duration crates now clock_skew
    fail_if (ltb latest generated_at) (snapshot_invalid (future_dated s.generated_at))
    last_valid ← add_duration crates expires_at clock_skew
    fail_if (ltb last_valid now) (snapshot_expired (snapshot_expired_at s.expires_at))

  -- What follows the signature and the freshness checks.
  unfoldable pub accept :
      Bytes
      → CatalogSnapshot
      → VerifiedManifest
      → Option RetainedCatalogState
      → Result VerifiedSnapshot
  accept raw s m retained = do
    descriptor ← find_descriptor s m
    check_retained s retained
    policy_transition ← check_policy s descriptor.policy retained
    check_sequence s
    outcome ← compare_chain s (sha256_digest crates raw) retained
    d ← decode_entries crates s.entries
    ok (record {
      snapshot = s;
      entries = d.entries;
      skipped = d.skipped;
      digest = sha256_digest crates raw;
      outcome = outcome;
      policy_transition = policy_transition;
    })

  -- The bound on the size, and the schema.
  unfoldable pub read_snapshot : Bytes → Result CatalogSnapshot
  read_snapshot raw = do
    fail_if (ltb max_snapshot_bytes (length raw)) (snapshot_invalid (oversize max_snapshot_bytes))
    attempt (λ _. snapshot_invalid schema)
        (from_slice crates (λ st. decoded (snapshot_of crates st)) raw)

  unfoldable pub verify_snapshot :
      Bytes → VerifiedManifest → Option RetainedCatalogState → ℕ → Result VerifiedSnapshot
  verify_snapshot raw m retained now = do
    s ← read_snapshot raw
    check_header s m
    authenticate raw s m
    check_freshness s now
    accept raw s m retained

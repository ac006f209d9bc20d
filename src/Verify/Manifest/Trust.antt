-- ===== src/Verify/Manifest/Trust.antt =====
-- What an accepted manifest guarantees to the client (src/verify.rs, `verify_manifest`).
use onym_discovery.Prelude.{ℕ, refl, ◌<◌, ◌≤◌, ◌≡◌, Bytes, length, Distinct, arith, =ᵗ_iff}
use onym_discovery.Error.{provider_manifest_invalid, unsigned}
use onym_discovery.Result.{ok, >>=-eq-ok, map_err, map_err-eq-ok}
use onym_discovery.Crates.{Crates}
use onym_discovery.Sign.Signed.{IsSigned, IsSigned-of_checks}
use onym_discovery.Types.Constants.{implementation_profile, max_manifest_bytes}
use onym_discovery.Types.Records.{ProviderManifest}
use onym_discovery.Types.Fields.{parse_timestamp, validate_component_id}
use onym_discovery.Verify.State.{VerifiedManifest}
use onym_discovery.Verify.Manifest.{
  discovery, invalid, check_header, authenticate, check_validity, gather, read_manifest,
  verify_manifest,
}
use onym_discovery.Verify.Manifest.Lossy.{sorted, gather_iff}

pub record IsTrusted (crates : Crates) (raw : Bytes) (now : ℕ) (v : VerifiedManifest) : Type 0 where
  pub sized : length raw ≤ max_manifest_bytes
  pub signed : IsSigned crates raw v.manifest.operator v.manifest.signature
  pub version : v.manifest.version ≡ 1
  pub profile : v.manifest.implementation_profile_id ≡ implementation_profile
  pub seat : v.manifest.seat ≡ discovery
  pub provider : validate_component_id v.manifest.provider_id ≡ ok tt
  pub valid_until : ℕ
  pub until : parse_timestamp crates v.manifest.valid_until ≡ ok valid_until
  pub not_expired : now < valid_until
  pub distinct : Distinct (sorted crates v.manifest).decoded_ids
  pub catalogs : v.catalogs ≡ (sorted crates v.manifest).catalogs

check_header-fields :
    (crates : Crates) (m : ProviderManifest)
    → check_header crates m ≡ ok tt
    → (m.version ≡ 1)
      × (m.implementation_profile_id ≡ implementation_profile)
      × (m.seat ≡ discovery)
      × (validate_component_id m.provider_id ≡ ok tt)
unfolding check_header
check_header-fields crates m h =
    ground
      (arith, =ᵗ_iff m.implementation_profile_id implementation_profile, =ᵗ_iff m.seat discovery)

-- The checks of an accepted manifest, one by one.
module _ (crates : Crates) (raw : Bytes) (now : ℕ) (v : VerifiedManifest) where
  read_manifest-sized :
      (m : ProviderManifest) → read_manifest crates raw ≡ ok m → length raw ≤ max_manifest_bytes
  unfolding read_manifest
  read_manifest-sized m h = ground arith

  verify_manifest-eq-ok :
      verify_manifest crates raw now ≡ ok v
      → (m : ProviderManifest) × (read_manifest crates raw ≡ ok m)
        × (check_header crates m ≡ ok tt)
        × (authenticate crates raw m ≡ ok tt)
        × (check_validity crates m now ≡ ok tt)
        × (gather crates m ≡ ok v)
  unfolding verify_manifest
  verify_manifest-eq-ok h =
      let (m, read, rest) = >>=-eq-ok (read_manifest crates raw) _ h in
      (
        m,
        read,
        ground (arith, rest),
        ground (arith, rest),
        ground (arith, rest),
        ground (arith, rest),
      )

-- A manifest that `verify_manifest` accepts is within its bound; it is signed by the operator key
-- that it names over the canonical form of its exact bytes; its version, profile, seat and
-- provider id are right; it has not expired; no catalog id repeats among its descriptors that
-- decode; and the catalogs are exactly the public ones of these, in their order.
pub verify_manifest-IsTrusted :
    (crates : Crates) (raw : Bytes) (now : ℕ) (v : VerifiedManifest)
    → verify_manifest crates raw now ≡ ok v
    → IsTrusted crates raw now v
unfolding authenticate check_validity
verify_manifest-IsTrusted crates raw now v h =
    let (m, read, header, signed, valid, gathered) = verify_manifest-eq-ok crates raw now v h in
    let (version, profile, seat, provider) = check_header-fields crates m header in
    let (until, e, rest) =
      >>=-eq-ok (map_err invalid (parse_timestamp crates m.valid_until)) _ valid in
    let (distinct, _, _, _, same) = (gather_iff crates m v).0 gathered in
    rw same (record {
      sized = read_manifest-sized crates raw now v m read;
      signed =
          IsSigned-of_checks crates raw m.operator m.signature invalid
            (provider_manifest_invalid unsigned) signed;
      version = version;
      profile = profile;
      seat = seat;
      provider = provider;
      valid_until = until;
      until = map_err-eq-ok invalid _ e;
      not_expired = ground (arith, rest);
      distinct = distinct;
      catalogs = refl;
    })

-- ===== src/Verify/Manifest/Total.antt =====
-- src/verify.rs, `verify_manifest`: it does not panic.
use onym_discovery.Prelude.{ℕ, suc, refl, Bytes, List, [], ◌∷◌, arith}
use onym_discovery.Error.{provider_manifest_invalid, unsigned}
use onym_discovery.Result.{
  Result, ok, err, panic, Returns, Returns-bind, Returns-map_err, Returns-ok_or, map_err, ok_or,
}
use onym_discovery.Json.{Value}
use onym_discovery.Crates.{Crates}
use onym_discovery.Crates.Laws.{HexLaws}
use onym_discovery.Types.Records.{ProviderManifest, CatalogDescriptor}
use onym_discovery.Types.Fields.{parse_operator_key}
use onym_discovery.Types.Fields.Total.{
  validate_component_id-Returns, validate_uri-Returns, validate_digest-Returns,
  parse_operator_key-Returns, parse_timestamp-Returns, signing_bytes-Returns, verify-Returns,
}
use onym_discovery.Canonical.{signing_bytes}
use onym_discovery.Verify.Manifest.{
  Scan, no_scan, scan_one, scan_from, invalid, check_header, authenticate, check_validity,
  decode_descriptor, gather, read_manifest, verify_manifest,
}
use onym_discovery.Verify.Manifest.Lossy.{decode_descriptor-Returns}

scan_one-Returns :
    (i : ℕ) (r : Result CatalogDescriptor) (sc : Scan) → Returns r → Returns (scan_one i r sc)
unfolding scan_one
scan_one-Returns i (ok c) sc h = ground arith
scan_one-Returns i (err e) sc h = λ p. cc
scan_one-Returns i panic sc h = absurd (h refl)

check_header-Returns : (crates : Crates) (m : ProviderManifest) → Returns (check_header crates m)
unfolding check_header
check_header-Returns crates m = ground (arith, validate_component_id-Returns m.provider_id)

module _ (crates : Crates) where
  scan_from-Returns : (i : ℕ) (vs : List Value) (sc : Scan) → Returns (scan_from crates i vs sc)
  unfolding scan_from
  scan_from-Returns i [] sc = λ p. cc
  scan_from-Returns i (v ∷ vs) sc =
      Returns-bind (scan_one i (decode_descriptor crates v) sc) _
        (scan_one-Returns i (decode_descriptor crates v) sc (decode_descriptor-Returns crates v))
        λ sc' _. scan_from-Returns (suc i) vs sc'

  gather-Returns : (m : ProviderManifest) → Returns (gather crates m)
  unfolding gather
  gather-Returns m =
      Returns-bind (scan_from crates 0 m.catalogs no_scan) _
        (scan_from-Returns 0 m.catalogs no_scan)
        λ sc _. ground (
          arith,
          validate_uri-Returns crates m.privacy_profile_uri,
          validate_digest-Returns m.privacy_profile,
        )

  check_validity-Returns : (m : ProviderManifest) (now : ℕ) → Returns (check_validity crates m now)
  unfolding check_validity
  check_validity-Returns m now = ground (arith, parse_timestamp-Returns crates m.valid_until)

  read_manifest-Returns : (raw : Bytes) → Returns (read_manifest crates raw)
  unfolding read_manifest
  read_manifest-Returns raw = ground arith

  module _ (laws : HexLaws crates) where
    authenticate-Returns :
        (raw : Bytes) (m : ProviderManifest) → Returns (authenticate crates raw m)
    unfolding authenticate
    authenticate-Returns raw m =
        Returns-bind (map_err invalid (parse_operator_key crates m.operator)) _
          (Returns-map_err invalid _ (parse_operator_key-Returns crates laws m.operator))
          λ k _.
            Returns-bind (ok_or m.signature (provider_manifest_invalid unsigned)) _
              (Returns-ok_or _ _)
              λ sig _.
                Returns-bind (map_err invalid (signing_bytes crates raw)) _
                  (Returns-map_err invalid _ (signing_bytes-Returns crates raw))
                  λ bytes _. Returns-map_err invalid _ (verify-Returns crates k bytes sig)

    pub verify_manifest-Returns : (raw : Bytes) (now : ℕ) → Returns (verify_manifest crates raw now)
    unfolding verify_manifest
    verify_manifest-Returns raw now =
        Returns-bind (read_manifest crates raw) _ (read_manifest-Returns raw) λ m _.
          Returns-bind (check_header crates m) _ (check_header-Returns crates m) λ _ _.
            Returns-bind (authenticate crates raw m) _ (authenticate-Returns raw m) λ _ _.
              Returns-bind (check_validity crates m now) _ (check_validity-Returns m now)
                λ _ _. gather-Returns m

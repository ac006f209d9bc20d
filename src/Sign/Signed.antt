-- ===== src/Sign/Signed.antt =====
-- When bytes carry an operator's signature: what src/keys.rs and src/canonical.rs check together.
use onym_discovery.Prelude.{◌≡◌, Text, Bytes, true, Option, some, arith}
use onym_discovery.Error.{Error, malformed, public_key}
use onym_discovery.Result.{ok, ◌>>=◌, >>=-eq-ok, map_err, map_err-eq-ok, ok_or}
use onym_discovery.Crates.{Crates, done, attempt}
use onym_discovery.Types.Fields.{parse_operator_key}
use onym_discovery.Canonical.{signing_bytes}
use onym_discovery.Keys
use onym_discovery.Keys.{decode_signature_b64}

-- The key that `operator` names signed the canonical form of `raw`, and `signature` says so.
pub record IsSigned (crates : Crates) (raw : Bytes) (operator : Text) (signature : Option Text)
    : Type 0 where
  pub key : Bytes
  pub parsed : parse_operator_key crates operator ≡ ok key
  pub public_key : Bytes
  pub decompressed : crates.verifying_key_from_bytes key ≡ done public_key
  pub encoded : Text
  pub present : signature ≡ some encoded
  pub message : Bytes
  pub canonical : signing_bytes crates raw ≡ ok message
  pub signature_bytes : Bytes
  pub decoded : decode_signature_b64 crates encoded ≡ ok signature_bytes
  pub valid : crates.ed25519_verify public_key message signature_bytes ≡ true

module _ (crates : Crates) (raw : Bytes) (operator : Text) (signature : Option Text) where
  -- The chain of checks in `verify_manifest` and `verify_snapshot`, which differ in `f` and `e`.
  pub IsSigned-of_checks :
      (f : Error → Error) (e : Error)
      → (do
        key ← map_err f (parse_operator_key crates operator)
        encoded ← ok_or signature e
        bytes ← map_err f (signing_bytes crates raw)
        map_err f (Keys.verify crates key bytes encoded))
        ≡ ok tt
      → IsSigned crates raw operator signature
  unfolding Keys.verify
  IsSigned-of_checks f e h =
      let (key, e0, h0) = >>=-eq-ok (map_err f (parse_operator_key crates operator)) _ h in
      let (encoded, e1, h1) = >>=-eq-ok (ok_or signature e) _ h0 in
      let (bytes, e2, h2) = >>=-eq-ok (map_err f (signing_bytes crates raw)) _ h1 in
      let (pk, e3, h3) =
        >>=-eq-ok (attempt (λ t. malformed (public_key t)) (crates.verifying_key_from_bytes key)) _
          (map_err-eq-ok f (Keys.verify crates key bytes encoded) h2) in
      let (sb, e4, h4) = >>=-eq-ok (decode_signature_b64 crates encoded) _ h3 in
      record {
        key = key;
        parsed = map_err-eq-ok f _ e0;
        public_key = pk;
        decompressed = ground (arith, e3);
        encoded = encoded;
        present = ground (arith, e1);
        message = bytes;
        canonical = map_err-eq-ok f _ e2;
        signature_bytes = sb;
        decoded = e4;
        valid = ground (arith, h4);
      }

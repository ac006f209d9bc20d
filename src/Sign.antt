-- ===== src/Sign.antt =====
-- src/sign.rs: deterministic signing.
pub mod Signed
pub mod Verifies
use onym_discovery.Prelude.{Text, Bytes, Option}
use onym_discovery.Error.{malformed, internal, foreign, malformed_json, no_signature_field}
use onym_discovery.Result.{Result, ◌>>=◌, ok_or, expect}
use onym_discovery.Json.{Value, string, object, as_object, as_str, member_of}
use onym_discovery.Json
use onym_discovery.Crates.{Crates, attempt, parse_value}
use onym_discovery.Canonical.{signature_field, signing_bytes, to_canonical_vec}
use onym_discovery.Keys.{sign}

-- `value.get("signature").and_then(Value::as_str)`
abbrev pub embedded_signature : Value → Option Text
embedded_signature v = elim (member_of signature_field v) [
  | Option.none ↦ Option.none
  | Option.some w ↦ as_str w
]

module _ (crates : Crates) where
  unfoldable pub sign_document : Bytes → Bytes → Result Bytes
  unfolding signing_bytes to_canonical_vec
  sign_document raw key = do
    bytes_to_sign ← signing_bytes crates raw
    let signature = sign crates key bytes_to_sign
    value ← attempt (λ e. internal (foreign e)) (parse_value crates bytes_to_sign)
    members ← expect (as_object value)
    to_canonical_vec crates (object (Json.insert signature_field (string signature) members))

  unfoldable pub detached_signature : Bytes → Result Text
  detached_signature signed_document = do
    value ← attempt (λ e. malformed (malformed_json e)) (parse_value crates signed_document)
    ok_or (embedded_signature value) (malformed no_signature_field)

-- ===== src/Types/Fields.antt =====
-- src/types.rs: the rules for keys, ids, digests and timestamps.
pub mod Alphabet
pub mod Forms
pub mod KeyForms
pub mod Total
use onym_discovery.Prelude.{
  ℕ, Text, Bytes, text, Bool, not, ◌&&◌, ◌||◌, Option, none, some, length, all, is_empty, ltb, leb,
  ◌==◌, ◌=ᵗ◌, strip_prefix, if◌then◌else◌, [], ◌∷◌,
}
use onym_discovery.Error.{
  malformed, foreign, operator_key_prefix, operator_key_hex, component_id_prefix, component_token,
  seat_type_member, catalog_id, digest_prefix, digest_hex, timestamp_not_utc, timestamp_parse,
}
use onym_discovery.Result.{Result, ok, ◌>>=◌, ◌>>◌, fail_if, guard, ok_or, expect}
use onym_discovery.Crates.{Crates, attempt}

abbrev pub key_scheme : Text
unfolding text
key_scheme = text "onym:key:"

abbrev pub component_scheme : Text
unfolding text
component_scheme = text "onym:component:"

abbrev pub digest_scheme : Text
unfolding text
digest_scheme = text "sha256:"

abbrev pub star : Text
unfolding text
star = text "*"

-- The byte classes of the `matches!` tests.
abbrev pub is_digit : ℕ → Bool
is_digit b = leb b'0' b && leb b b'9'

abbrev pub is_lower : ℕ → Bool
is_lower b = leb b'a' b && leb b b'z'

unfoldable pub is_lower_hex : ℕ → Bool
is_lower_hex b = is_digit b || (leb b'a' b && leb b b'f')

unfoldable pub is_id_byte : ℕ → Bool
is_id_byte b = is_lower b || is_digit b || b == b'-'

unfoldable pub is_seat_byte : ℕ → Bool
is_seat_byte b = is_lower b || is_digit b || b == b'.' || b == b'-'

-- `try_into::<[u8; n]>()`
unfoldable pub exactly : ℕ → Bytes → Option Bytes
exactly n bs = if length bs == n then some bs else none

unfoldable pub validate_component_id : Text → Result (Unit {0})
validate_component_id value = do
  token ← ok_or (strip_prefix component_scheme value) (malformed (component_id_prefix value))
  fail_if (is_empty token || ltb 64 (length token) || not (all is_id_byte token))
      (malformed (component_token token))

unfoldable pub validate_seat_type_member : Text → Result (Unit {0})
validate_seat_type_member value =
    if value =ᵗ star
    then ok tt
    else fail_if (is_empty value || ltb 64 (length value) || not (all is_seat_byte value))
        (malformed (seat_type_member value))

unfoldable pub validate_catalog_id : Text → Result (Unit {0})
validate_catalog_id value =
    fail_if (is_empty value || ltb 64 (length value) || not (all is_id_byte value))
      (malformed (catalog_id value))

unfoldable pub validate_digest : Text → Result (Unit {0})
validate_digest value = do
  hex_part ← ok_or (strip_prefix digest_scheme value) (malformed (digest_prefix value))
  fail_if (not (length hex_part == 64) || not (all is_lower_hex hex_part)) (malformed digest_hex)

-- `value.ends_with('Z')`
unfoldable pub ends_with_z : Text → Bool
ends_with_z [] = Bool.false
ends_with_z (b ∷ []) = b == b'Z'
ends_with_z (_ ∷ b ∷ s) = ends_with_z (b ∷ s)

module _ (crates : Crates) where
  open crates use {hex_decode, parse_rfc3339, replace_millisecond, format_rfc3339}

  unfoldable pub parse_operator_key : Text → Result Bytes
  unfolding exactly
  parse_operator_key value = do
    hex_part ← ok_or (strip_prefix key_scheme value) (malformed (operator_key_prefix value))
    fail_if (not (length hex_part == 64) || not (all is_lower_hex hex_part))
        (malformed operator_key_hex)
    bytes ← attempt (λ e. malformed (foreign e)) (hex_decode hex_part)
    expect (exactly 32 bytes)

  unfoldable pub parse_timestamp : Text → Result ℕ
  unfolding ends_with_z
  parse_timestamp value = do
    guard (ends_with_z value) (malformed (timestamp_not_utc value))
    attempt (λ e. malformed (timestamp_parse value e)) (parse_rfc3339 value)

  unfoldable pub format_timestamp : ℕ → Result Text
  format_timestamp ts = do whole ← expect (replace_millisecond ts 0); expect (format_rfc3339 whole)

-- ===== src/Types/Fields/KeyForms.antt =====
-- src/types.rs: the form of an operator id and of a seat type.
use onym_discovery.Prelude.{
  ◌≡◌, ◌↔◌, ◌⊎◌, inl, inr, ◌≢◌, ◌≤◌, Text, Bytes, none, some, Option-cases, [], ◌∷◌, All, text,
  length, strip_prefix, strip_prefix_iff, =ᵗ_iff, arith,
}
use onym_discovery.Result.{ok}
use onym_discovery.Crates.{Crates, done}
use onym_discovery.Crates.Laws.{HexLaws}
use onym_discovery.Types.Fields.{
  key_scheme, star, exactly, parse_operator_key, validate_seat_type_member,
}
use onym_discovery.Types.Fields.Alphabet.{IsSeatByte, all-is_seat_byte, all-is_lower_hex}
use onym_discovery.Types.Fields.Forms.{Behind, IsHexDigest}

-- The key that the text behind the scheme spells.
abbrev pub SpellsKey : Crates → Bytes → Text → Type 0
SpellsKey crates key rest = IsHexDigest rest × (crates.hex_decode rest ≡ done key)

-- The star, or one to 64 lowercase letters, digits, full stops and dashes.
abbrev pub IsSeatType : Text → Type 0
IsSeatType value = (value ≡ text "*") ⊎ ((value ≢ []) × (length value ≤ 64) × All IsSeatByte value)

module _ (crates : Crates) (laws : HexLaws crates) (key : Bytes) (value : Text) where
  SpellsKey-iff :
      (rest : Text)
      → strip_prefix key_scheme value ≡ some rest
      → (parse_operator_key crates value ≡ ok key) ↔ SpellsKey crates key rest
  unfolding parse_operator_key exactly
  SpellsKey-iff rest e = ground (arith, e, laws.length-decode rest key, all-is_lower_hex rest)

  not_key : strip_prefix key_scheme value ≡ none → parse_operator_key crates value ≢ ok key
  unfolding parse_operator_key
  not_key e h = ground (arith, e, h)

validate_seat_type_member_iff :
    (value : Text) → (validate_seat_type_member value ≡ ok tt) ↔ IsSeatType value
unfolding validate_seat_type_member text
validate_seat_type_member_iff [] = ground (arith, =ᵗ_iff [] star)
validate_seat_type_member_iff (b ∷ value) =
    ground (arith, =ᵗ_iff (b ∷ value) star, all-is_seat_byte (b ∷ value))

-- An operator id names a key exactly when it is `onym:key:` and 64 lowercase hexadecimal digits that
-- spell the key, and a seat type is accepted exactly when it is `*` or one to 64 bytes, each a
-- lowercase ASCII letter, a digit, a full stop or a dash.
pub key_forms :
    (crates : Crates)
    → HexLaws crates
    → (key : Bytes) (value : Text)
    → ((parse_operator_key crates value ≡ ok key)
        ↔ Behind (text "onym:key:") (SpellsKey crates key) value)
      × ((validate_seat_type_member value ≡ ok tt) ↔ IsSeatType value)
unfolding text
key_forms crates laws key value = (
  (
    λ h. elim (Option-cases (strip_prefix key_scheme value)) [
      | inl e ↦ absurd (not_key crates laws key value e h)
      | inr (t, e) ↦ (
        t,
        (strip_prefix_iff key_scheme value t).0 e,
        (SpellsKey-iff crates laws key value t e).0 h,
      )
    ],
    λ (t, e, form).
        (SpellsKey-iff crates laws key value t ((strip_prefix_iff key_scheme value t).1 e)).1 form,
  ),
  validate_seat_type_member_iff value,
)

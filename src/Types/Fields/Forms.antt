-- ===== src/Types/Fields/Forms.antt =====
-- src/types.rs: the forms of ids and digests that the rules accept.
use onym_discovery.Prelude.{
  ◌≡◌, ◌≢◌, ◌≤◌, ◌↔◌, inl, inr, Text, none, some, [], ◌∷◌, ◌++◌, length, All, text, Option-cases,
  strip_prefix, strip_prefix_iff, arith,
}
use onym_discovery.Result.{ok}
use onym_discovery.Types.Fields.{
  component_scheme, digest_scheme, validate_component_id, validate_catalog_id, validate_digest,
}
use onym_discovery.Types.Fields.Alphabet.{IsIdByte, IsHexDigit, all-is_id_byte, all-is_lower_hex}

-- One to 64 lowercase letters, digits and dashes.
abbrev pub IsToken : Text → Type 0
IsToken t = (t ≢ []) × (length t ≤ 64) × All IsIdByte t

-- 64 lowercase hexadecimal digits.
abbrev pub IsHexDigest : Text → Type 0
IsHexDigest t = (length t ≡ 64) × All IsHexDigit t

validate_catalog_id_iff : (value : Text) → (validate_catalog_id value ≡ ok tt) ↔ IsToken value
unfolding validate_catalog_id
validate_catalog_id_iff [] = ground arith
validate_catalog_id_iff (b ∷ value) = ground (arith, all-is_id_byte (b ∷ value))

IsToken-iff :
    (value token : Text)
    → strip_prefix component_scheme value ≡ some token
    → (validate_component_id value ≡ ok tt) ↔ IsToken token
unfolding validate_component_id
IsToken-iff value [] h = ground (arith, h)
IsToken-iff value (b ∷ token) h = ground (arith, h, all-is_id_byte (b ∷ token))

IsHexDigest-iff :
    (value token : Text)
    → strip_prefix digest_scheme value ≡ some token
    → (validate_digest value ≡ ok tt) ↔ IsHexDigest token
unfolding validate_digest
IsHexDigest-iff value token h = ground (arith, h, all-is_lower_hex token)

no_scheme :
    (value : Text)
    → strip_prefix component_scheme value ≡ none
    → validate_component_id value ≢ ok tt
unfolding validate_component_id
no_scheme value e h = ground (arith, e, h)

no_digest : (value : Text) → strip_prefix digest_scheme value ≡ none → validate_digest value ≢ ok tt
unfolding validate_digest
no_digest value e h = ground (arith, e, h)

-- `value` is `scheme` with a text of the given form behind it.
abbrev pub Behind : Text → (Text → Type 0) → Text → Type 0
Behind scheme Form value = (rest : Text) × (value ≡ scheme ++ rest) × Form rest

validate_component_id_iff :
    (value : Text) → (validate_component_id value ≡ ok tt) ↔ Behind component_scheme IsToken value
validate_component_id_iff value = (
  λ h. elim (Option-cases (strip_prefix component_scheme value)) [
    | inl e ↦ absurd (no_scheme value e h)
    | inr (t, e) ↦ (t, (strip_prefix_iff component_scheme value t).0 e, (IsToken-iff value t e).0 h)
  ],
  λ (t, e, form). (IsToken-iff value t ((strip_prefix_iff component_scheme value t).1 e)).1 form,
)

validate_digest_iff :
    (value : Text) → (validate_digest value ≡ ok tt) ↔ Behind digest_scheme IsHexDigest value
validate_digest_iff value = (
  λ h. elim (Option-cases (strip_prefix digest_scheme value)) [
    | inl e ↦ absurd (no_digest value e h)
    | inr (t, e) ↦
        (t, (strip_prefix_iff digest_scheme value t).0 e, (IsHexDigest-iff value t e).0 h)
  ],
  λ (t, e, form). (IsHexDigest-iff value t ((strip_prefix_iff digest_scheme value t).1 e)).1 form,
)

-- The rules accept exactly these forms: a component id is `onym:component:` and a token, a catalog id is
-- a token, and a digest is `sha256:` and 64 lowercase hexadecimal digits, where a token is one to 64
-- bytes, each a lowercase ASCII letter, a digit or a dash.
pub id_forms :
    (value : Text)
    → ((validate_component_id value ≡ ok tt) ↔ Behind (text "onym:component:") IsToken value)
      × ((validate_catalog_id value ≡ ok tt) ↔ IsToken value)
      × ((validate_digest value ≡ ok tt) ↔ Behind (text "sha256:") IsHexDigest value)
unfolding text
id_forms value =
    (validate_component_id_iff value, validate_catalog_id_iff value, validate_digest_iff value)

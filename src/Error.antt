-- ===== src/Error.antt =====
-- src/error.rs: the error taxonomy and its stable codes.
-- A diagnostic text is kept as data: `Message` has one constructor for each text that the sources
-- write, with what they put into it; `shown` is an error's own text inside another message. What
-- a foreign library says of its own failure is the text `Text` that it hands over.
use onym_discovery.Prelude.{ℕ, Text, Option, none, some, text}

mutual
  pub data Error : Type 0 where
    provider_manifest_invalid : Message → Error
    snapshot_invalid : Message → Error
    snapshot_expired : Message → Error
    entry_manifest_mismatch : Message → Error
    entry_manifest_unavailable : Message → Error
    malformed : Message → Error
    internal : Message → Error
    io : Text → Error

  pub data Message : Type 0 where
    shown : Error → Message
    labelled : Text → Error → Message
    foreign : Text → Message
    -- src/types.rs
    operator_key_prefix : Text → Message
    operator_key_hex digest_hex : Message
    component_id_prefix component_token : Text → Message
    seat_type_member catalog_id : Text → Message
    digest_prefix : Text → Message
    uri_parse : Text → Text → Message
    uri_scheme uri_host uri_userinfo uri_query_fragment uri_port uri_no_authority : Text → Message
    uri_raw_userinfo uri_raw_port : Text → Message
    timestamp_not_utc : Text → Message
    timestamp_parse : Text → Text → Message
    -- src/keys.rs
    seed_hex signature_base64 public_key : Text → Message
    seed_length signature_length signature_failed : Message
    -- src/canonical.rs and src/sign.rs
    invalid_json malformed_json reserialize serialize : Text → Message
    duplicate_key : Text → Message
    not_an_object no_signature_field : Message
    -- src/verify.rs
    oversize : ℕ → Message
    schema descriptor_schema entry_schema previous_schema : Message
    unsupported_version : ℕ → Message
    unsupported_profile wrong_seat : Text → Message
    unsigned : Message
    manifest_expired snapshot_expired_at : Text → Message
    duplicate_catalog_id : Text → Message
    no_decodable_descriptors : Message
    empty_seat_types star_not_alone : Message
    provider_mismatch : Text → Text → Message
    expires_before_generated window_too_long : Message
    future_dated : Text → Message
    audience_skipped not_declared : Text → Message
    different_provider different_catalog : Text → Text → Message
    policy_mismatch : Message
    sequence_zero first_with_previous successor_without_previous : Message
    rollback : ℕ → ℕ → Message
    fork_same_sequence : ℕ → Message
    fork_previous_digest : Message
    inconsistent_jump : ℕ → ℕ → Message
    too_many_entries : ℕ → Message
    duplicate_component_id : Text → Message
    empty_seat_type : Message
    unknown_relationship unknown_placement unknown_status : Text → Message
    non_empty_evidence : Message
    digest_mismatch : Text → Text → Message
    detached_not_utf8 detached_disagrees : Message
    embedded_decode detached_decode : Error → Message
    -- src/build.rs
    expiry_days : Message
    previous_for_other_catalog : Message
    entry_not_an_object entry_manifest_not_an_object : Message
    manifest_too_large : Text → Message

-- `Error::code`: the abstract contract's stable error code, where one applies.
unfoldable pub code : Error → Option Text
unfolding text
code (provider_manifest_invalid _) = some (text "provider_manifest_invalid")
code (snapshot_invalid _) = some (text "snapshot_invalid")
code (snapshot_expired _) = some (text "snapshot_expired")
code (entry_manifest_mismatch _) = some (text "entry_manifest_mismatch")
code (entry_manifest_unavailable _) = some (text "entry_manifest_unavailable")
code _ = none

-- ===== src/Example/Program.antt =====
-- The program's definitions together, for the `unfolding` line of a test.
use onym_discovery.Prelude.{◌=ᵗ◌, strip_prefix, compare_text, text}
use onym_discovery.Json
use onym_discovery.Crates.{add_duration, from_slice}
use onym_discovery.Types.Fields.{
  is_lower_hex, is_id_byte, is_seat_byte, exactly, validate_component_id, validate_seat_type_member,
  validate_catalog_id, validate_digest, ends_with_z, parse_operator_key, parse_timestamp,
  format_timestamp,
}
use onym_discovery.Types.Uri.{
  is_some, is_dns_name, after_mark, ends_authority, authority, validate_uri,
}
use onym_discovery.Types.Decode.{slots, string_of, uint_of, list_of, nullable}
use onym_discovery.Types.Entry.{manifest_ref_of, status_of, descriptor_of, entry_of}
use onym_discovery.Types.Document.{manifest_of, snapshot_of, config_of}
use onym_discovery.Canonical.{
  any_value, reject_duplicate_keys, canonical_bytes, signing_bytes, to_canonical_vec,
}
use onym_discovery.Keys
use onym_discovery.Sign.{sign_document, detached_signature}
use onym_discovery.Verify.State.{
  after_acceptance, sha256_digest, read_previous, from_snapshot_bytes,
}
use onym_discovery.Verify.Manifest
use onym_discovery.Verify.Chain.{check_retained, check_policy, check_sequence, compare_chain}
use onym_discovery.Verify.Entry.{
  check_entry, decode_entry, decode_from, keep, reject_duplicate_components, decode_entries,
}
use onym_discovery.Verify.Snapshot.{
  check_header, find_descriptor, authenticate, check_freshness, accept, read_snapshot,
  verify_snapshot,
}
use onym_discovery.Verify.Detached.{trim_line_ends, verify_destination, verify_detached_sig}
use onym_discovery.Verify.Conflicts.{
  conflicting_digests, source_conflicts, cross_catalog_equivocation,
}
use onym_discovery.Build.{
  check_config, position, document, value_of_ref, value_of_status, value_of_entry, manifest_members,
  pin_file, pin, check_listed_status, check_listed, resolve_entry, resolve_entries, build_snapshot,
}
use onym_discovery.Keys.{generate_seed, fingerprint, signing_key_from_seed_hex}
use onym_discovery.Keys.Trim.{trim}
use onym_discovery.Cli.Run.{lift, print, given, read_path, settle, write_path, set_mode_path}
use onym_discovery.Cli.Names.{digits, decimal, retention_name, retention_path, sig_path}
use onym_discovery.Cli.Files.{moment, as_text, load_key, write_unless, write_immutable}
use onym_discovery.Cli.Main.{
  write_seed, run_keygen, run_fingerprint, run_sign_manifest, publish, run_build,
  run_verify_manifest, run_verify_snapshot, run_verify_destination, run_verify, main,
}
use onym_discovery.Cli.Main.Held.{targets}
use onym_discovery.Example.Crates.{stand_in}

unfoldable pub program : Unit {0}
unfolding stand_in ◌=ᵗ◌ strip_prefix compare_text text Json.get Json.remove Json.insert Json.events
    add_duration from_slice is_lower_hex is_id_byte is_seat_byte exactly validate_component_id
    validate_seat_type_member validate_catalog_id validate_digest ends_with_z parse_operator_key
    parse_timestamp format_timestamp is_some is_dns_name after_mark ends_authority authority
    validate_uri slots string_of uint_of list_of nullable manifest_ref_of status_of descriptor_of
    entry_of manifest_of snapshot_of config_of any_value reject_duplicate_keys canonical_bytes
    signing_bytes to_canonical_vec Keys.operator_id Keys.sign Keys.decode_signature_b64 Keys.verify
    sign_document detached_signature after_acceptance sha256_digest read_previous
    from_snapshot_bytes Manifest.validate_members Manifest.place Manifest.scan_one
    Manifest.check_descriptor Manifest.decode_descriptor Manifest.scan_from Manifest.check_header
    Manifest.authenticate Manifest.check_validity Manifest.gather Manifest.read_manifest
    Manifest.verify_manifest check_retained check_policy check_sequence compare_chain check_entry
    decode_entry decode_from keep reject_duplicate_components decode_entries check_header
    find_descriptor authenticate check_freshness accept read_snapshot verify_snapshot trim_line_ends
    verify_destination verify_detached_sig conflicting_digests source_conflicts
    cross_catalog_equivocation check_config position document value_of_ref value_of_status
    value_of_entry manifest_members pin_file pin check_listed_status check_listed resolve_entry
    resolve_entries build_snapshot
program = tt

-- The commands as well.
unfoldable pub commands : Unit {0}
unfolding program generate_seed signing_key_from_seed_hex trim fingerprint lift print given
    read_path settle write_path set_mode_path digits decimal retention_name retention_path sig_path
    moment as_text load_key write_unless write_immutable write_seed run_keygen run_fingerprint
    run_sign_manifest publish run_build run_verify_manifest run_verify_snapshot
    run_verify_destination run_verify main targets
commands = tt

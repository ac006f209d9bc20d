-- ===== src/Verify/Entry.antt =====
-- src/verify.rs: one catalog entry, and the lossy decoding of a snapshot's entries.
pub mod Lossy
use onym_discovery.Prelude.{
  ℕ, suc, Text, Option, none, some, List, [], ◌∷◌, ◌++◌, is_empty, length, ltb,
}
use onym_discovery.Error.{
  malformed, entry_schema, empty_seat_type, unknown_relationship, unknown_placement, unknown_status,
  non_empty_evidence, snapshot_invalid, too_many_entries, duplicate_component_id,
}
use onym_discovery.Result.{Result, ok, err, panic, ◌>>=◌, ◌>>◌, fail_if, guard, ok_or}
use onym_discovery.Json.{Value, events}
use onym_discovery.Crates.{Crates}
use onym_discovery.Types.Constants.{relationships, placements, status_states, max_entries}
use onym_discovery.Types.Records.{CatalogEntry, EntryStatus}
use onym_discovery.Types.Entry.{entry_of}
use onym_discovery.Types.Fields.{
  validate_component_id, validate_digest, parse_operator_key, parse_timestamp,
}
use onym_discovery.Types.Uri.{validate_uri}
use onym_discovery.Prelude.{contains}

module _ (crates : Crates) where
  unfoldable pub check_reviewed : Option Text → Result (Unit {0})
  check_reviewed none = ok tt
  check_reviewed (some reviewed) = do parse_timestamp crates reviewed; ok tt

  abbrev pub check_status_uri : Option Text → Result (Unit {0})
  check_status_uri none = ok tt
  check_status_uri (some uri) = validate_uri crates uri

  unfoldable pub check_status : Option EntryStatus → Result (Unit {0})
  check_status none = ok tt
  check_status (some status) = do
    guard (contains status_states status.state) (malformed (unknown_status status.state))
    check_status_uri status.uri

  -- `decode_entry` behind the decoding: the rules for each field.
  unfoldable pub check_entry : CatalogEntry → Result CatalogEntry
  unfolding check_reviewed check_status
  check_entry entry = do
    validate_component_id entry.component_id
    fail_if (is_empty entry.seat_type) (malformed empty_seat_type)
    validate_uri crates entry.manifest.uri
    validate_digest entry.manifest.digest
    parse_operator_key crates entry.operator
    parse_timestamp crates entry.listed_at
    check_reviewed entry.reviewed_at
    guard (contains relationships entry.relationship)
        (malformed (unknown_relationship entry.relationship))
    guard (contains placements entry.placement) (malformed (unknown_placement entry.placement))
    guard (is_empty entry.evidence) (malformed non_empty_evidence)
    check_status entry.status
    ok entry

  unfoldable pub decode_entry : Value → Result CatalogEntry
  unfolding check_entry
  decode_entry value = do
    entry ← ok_or (entry_of crates (events value)) (malformed entry_schema)
    check_entry entry

  pub record Decoded : Type 0 where
    pub entries : List CatalogEntry
    pub skipped : List ℕ

  -- One round of the loop: what fails to decode is skipped and its index kept.
  unfoldable pub keep : ℕ → Result CatalogEntry → Decoded → Result Decoded
  keep index (ok entry) d = ok (record d { entries = d.entries ++ entry ∷ [] })
  keep index (err _) d = ok (record d { skipped = d.skipped ++ index ∷ [] })
  keep index panic d = panic

  unfoldable pub decode_from : ℕ → List Value → Decoded → Result Decoded
  unfolding keep
  decode_from index [] d = ok d
  decode_from index (value ∷ vs) d = do
    d' ← keep index (decode_entry value) d
    decode_from (suc index) vs d'

-- `seen.insert` over the entries that survived.
unfoldable pub reject_duplicate_components : List Text → List CatalogEntry → Result (Unit {0})
reject_duplicate_components seen [] = ok tt
reject_duplicate_components seen (entry ∷ es) = do
  fail_if (contains seen entry.component_id)
      (snapshot_invalid (duplicate_component_id entry.component_id))
  reject_duplicate_components (entry.component_id ∷ seen) es

module _ (crates : Crates) where
  unfoldable pub decode_entries : List Value → Result (Decoded crates)
  decode_entries vs = do
    fail_if (ltb max_entries (length vs)) (snapshot_invalid (too_many_entries (length vs)))
    d ← decode_from crates 0 vs (record { entries = []; skipped = [] })
    reject_duplicate_components [] d.entries
    ok d

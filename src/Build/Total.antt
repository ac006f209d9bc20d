-- ===== src/Build/Total.antt =====
-- src/build.rs, `build_snapshot`: when it does not panic.
use onym_discovery.Prelude.{
  ℕ, ◌+◌, ◌≤◌, ◌≡◌, ◌≢◌, Text, Bytes, text, Option, none, some, List, [], ◌∷◌, Option-cases, inl,
  inr, ap, arith,
}
use onym_discovery.Error.{malformed, internal, foreign, entry_not_an_object, entry_schema}
use onym_discovery.Result.{ok, panic, Returns, Returns-bind, Returns-ok_or, >>=-eq-ok, ok_or}
use onym_discovery.Json.{
  Value, null, bool, number, string, array, Members, end, of_values, object, events, as_object,
  remove, get,
}
use onym_discovery.Json.Regular.{Regular, RegularValues, IsObject-remove}
use onym_discovery.Canonical.{
  signature_field, signing_bytes, canonical_bytes, to_canonical_vec, reject_duplicate_keys,
}
use onym_discovery.Crates.{Crates, Attempt, done, attempt, add_duration, parse_value}
use onym_discovery.Crates.Laws.{JsonLaws, HexLaws, max_depth}
use onym_discovery.Types.Constants.{days}
use onym_discovery.Types.Entry.{entry_of}
use onym_discovery.Types.Fields.{format_timestamp}
use onym_discovery.Types.Fields.Total.{
  validate_component_id-Returns, validate_catalog_id-Returns, validate_uri-Returns,
  validate_digest-Returns, parse_operator_key-Returns, signing_bytes-Returns,
  reject_duplicate_keys-Returns,
}
use onym_discovery.Types.Records.{CatalogEntry, EntryStatus, SnapshotConfig}
use onym_discovery.Sign.{sign_document}
use onym_discovery.Sign.Verifies.{parse_value-to_vec}
use onym_discovery.Verify.State.{read_previous}
use onym_discovery.Build.{
  check_config, position, check_listed, check_listed_status, manifest_members, pin_file, pin,
  resolve_entry, resolve_entries, document, document_members, object_with, build_snapshot,
}
use onym_discovery.Build.Plain.{resolve_entries-Regular, document-Regular}

check_config-Returns : (config : SnapshotConfig) → Returns (check_config config)
unfolding check_config
check_config-Returns config = ground (
  arith,
  validate_catalog_id-Returns config.catalog_id,
  validate_component_id-Returns config.provider_id,
  validate_digest-Returns config.policy_digest,
)

module _ (crates : Crates) where
  position-Returns :
      (config : SnapshotConfig) (previous : Option Bytes)
      → Returns (position crates config previous)
  unfolding position read_previous
  position-Returns config none = λ p. cc
  position-Returns config (some raw) = ground (arith, reject_duplicate_keys-Returns crates raw)

  check_listed_status-Returns : (s : Option EntryStatus) → Returns (check_listed_status crates s)
  unfolding check_listed_status
  check_listed_status-Returns none = λ p. cc
  check_listed_status-Returns (some st) = elim (Option-cases st.uri) [
    | inl e ↦ ground arith
    | inr (u, e) ↦ ground (arith, validate_uri-Returns crates u)
  ]

  check_listed-Returns : HexLaws crates → (e : CatalogEntry) → Returns (check_listed crates e)
  unfolding check_listed
  check_listed-Returns hex e = ground (
    arith,
    validate_component_id-Returns e.component_id,
    validate_uri-Returns crates e.manifest.uri,
    validate_digest-Returns e.manifest.digest,
    parse_operator_key-Returns crates hex e.operator,
    check_listed_status-Returns e.status,
  )

  manifest_members-Returns : (ms : Members) → Returns (manifest_members ms)
  unfolding manifest_members
  manifest_members-Returns ms = ground arith

  -- The tree that is signed is an object, so that what is parsed from its bytes is one.
  sign_document-Returns :
      JsonLaws crates
      → (raw key : Bytes) (ms : Members) → parse_value crates raw ≡ done (object ms)
      → Regular max_depth (object ms)
      → Returns (sign_document crates raw key)
  unfolding sign_document signing_bytes canonical_bytes Regular to_canonical_vec
  sign_document-Returns json raw key ms parsed r =
      Returns-bind (signing_bytes crates raw) _ (signing_bytes-Returns crates raw) λ message e.
        let (_, _, e1) = >>=-eq-ok (reject_duplicate_keys crates raw) _ e in
        let stripped : crates.to_vec (object (remove signature_field ms)) ≡ done message =
          ground (arith, e1, parsed) in
        let again : parse_value crates message ≡ done (object (remove signature_field ms)) =
          parse_value-to_vec crates json (object (remove signature_field ms)) message
            (IsObject-remove 126 signature_field ms r) stripped in
        ground (arith, again)

module _ (crates : Crates) (hex : HexLaws crates) (read_file : Text → Attempt Bytes) where
  pin_file-Returns : (path : Text) (ms : Members) → Returns (pin_file crates read_file path ms)
  unfolding pin_file
  pin_file-Returns path ms = ground (arith, manifest_members-Returns crates ms)

  pin-given :
      (ms : Members) (v : Value)
      → get (text "manifestFile") ms ≡ some v
      → Returns (pin crates read_file ms)
  unfolding pin
  pin-given ms (string path) e =
      ground (arith, e, pin_file-Returns path (remove (text "manifestFile") ms))
  pin-given ms null e = ground (arith, e)
  pin-given ms (bool b) e = ground (arith, e)
  pin-given ms (number n) e = ground (arith, e)
  pin-given ms (array vs) e = ground (arith, e)
  pin-given ms (object ns) e = ground (arith, e)

  pin-Returns : (ms : Members) → Returns (pin crates read_file ms)
  unfolding pin
  pin-Returns ms = elim (Option-cases (get (text "manifestFile") ms)) [
    | inl e ↦ ground (arith, e)
    | inr (v, e) ↦ pin-given ms v e
  ]

  resolve_entry-Returns : (raw : Value) → Returns (resolve_entry crates read_file raw)
  unfolding resolve_entry
  resolve_entry-Returns raw =
      Returns-bind (ok_or (as_object raw) (malformed entry_not_an_object)) _ (Returns-ok_or _ _)
        λ ms _. Returns-bind (pin crates read_file ms) _ (pin-Returns ms) λ pinned _.
          Returns-bind (ok_or (entry_of crates (events (object pinned))) (malformed entry_schema)) _
            (Returns-ok_or _ _) λ e _. ground (arith, check_listed-Returns crates hex e)

  resolve_entries-Returns : (raws : List Value) → Returns (resolve_entries crates read_file raws)
  unfolding resolve_entries
  resolve_entries-Returns [] = λ p. cc
  resolve_entries-Returns (raw ∷ raws) =
      ground (arith, resolve_entry-Returns raw, resolve_entries-Returns raws)

to_vec-Returns :
    (crates : Crates) (v : Value) → Returns (attempt (λ e. internal (foreign e)) (crates.to_vec v))
to_vec-Returns crates v = ground arith

sign_document-document :
    (crates : Crates)
    → JsonLaws crates
    → (config : SnapshotConfig) (n : ℕ) (d : Option Text) (g e : Text) (entries : List Value)
      (unsigned key : Bytes)
    → RegularValues 125 (of_values entries)
    → crates.to_vec (document config n d g e entries) ≡ done unsigned
    → Returns (sign_document crates unsigned key)
unfolding document
sign_document-document crates json config n d g e entries unsigned key plain encoded =
    let ms = object_with (document_members config n d g e entries) end in
    let regular = document-Regular config n d g e entries plain in
    sign_document-Returns crates json unsigned key ms
      (parse_value-to_vec crates json (object ms) unsigned regular encoded) regular

-- In a release build `build_snapshot` does not panic, on any config, previous publication and files, if the two times of the
-- snapshot can be written and its expiry is not beyond the last instant.
pub build_snapshot-Returns :
    (crates : Crates)
    → HexLaws crates
    → JsonLaws crates
    → (read_file : Text → Attempt Bytes) (config : SnapshotConfig) (previous : Option Bytes)
      (from : ℕ) (key : Bytes) (g e : Text)
    → from + days config.expiry_days ≤ crates.last_instant
    → format_timestamp crates from ≡ ok g
    → format_timestamp crates (from + days config.expiry_days) ≡ ok e
    → build_snapshot crates read_file config previous from key ≢ panic
unfolding build_snapshot add_duration
build_snapshot-Returns crates hex json read_file config previous from key g e room writes writes' =
    let until = from + days config.expiry_days in
    let added : add_duration crates from (days config.expiry_days) ≡ ok until =
      ground (arith, room) in
    Returns-bind (check_config config) _ (check_config-Returns config) λ _ _.
      Returns-bind (position crates config previous) _ (position-Returns crates config previous)
        λ (n, d) _.
          Returns-bind (resolve_entries crates read_file config.entries) _
            (resolve_entries-Returns crates hex read_file config.entries)
            λ entries resolved.
              Returns-bind (add_duration crates from (days config.expiry_days)) _
                (λ p. cc (p, added))
                λ t is.
                  Returns-bind (format_timestamp crates from) _ (λ p. cc (p, writes))
                    λ g' _.
                      Returns-bind (format_timestamp crates t) _
                        (λ p.
                          let same : t ≡ until = ground (arith, is, added) in
                          cc (p, writes', ap (format_timestamp crates) same))
                        λ e' _.
                          Returns-bind
                            (attempt (λ w. internal (foreign w))
                              (crates.to_vec (document config n d g' e' entries)))
                            _ (to_vec-Returns crates (document config n d g' e' entries))
                            λ u encoded.
                              Returns-bind (sign_document crates u key) _
                                (sign_document-document crates json config n d g' e' entries u key
                                  (resolve_entries-Regular crates read_file config.entries entries
                                    resolved)
                                  (ground (arith, encoded)))
                                λ bytes _. λ p. cc

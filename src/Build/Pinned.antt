-- ===== src/Build/Pinned.antt =====
-- src/build.rs against src/verify.rs: the digest of an entry's local manifest file.
use onym_discovery.Prelude.{
  ◌≡◌, ◌≤◌, sym, ap, ◌∙◌, Text, Bytes, text, length, ltb, =ᵗ_refl, some, arith,
}
use onym_discovery.Error.{malformed, io, entry_schema, manifest_too_large}
use onym_discovery.Result.{ok, >>=-eq-ok, ok_or, fail_if}
use onym_discovery.Json
use onym_discovery.Json.{Value, Members, object, string, events, as_object, get}
use onym_discovery.Json.Inserted.{get-of_insert}
use onym_discovery.Crates.{Crates, Attempt, attempt, done}
use onym_discovery.Types.Constants.{max_destination_manifest_bytes}
use onym_discovery.Types.Entry.{entry_of}
use onym_discovery.Types.Entry.Named.{entry_of-manifest, manifest_ref_of-digest}
use onym_discovery.Types.Records.{CatalogEntry}
use onym_discovery.Verify.State.{sha256_digest}
use onym_discovery.Verify.Detached.{verify_destination}
use onym_discovery.Build.{
  value_of_entry, check_listed, manifest_members, pin_file, pin, resolve_entry,
}

module _ (crates : Crates) (read_file : Text → Attempt Bytes) where
  -- What stands behind a file that is pinned.
  record IsPinned (path : Text) (pinned : Members) : Type 0 where
    pub bytes : Bytes
    pub found : read_file path ≡ done bytes
    pub sized : length bytes ≤ max_destination_manifest_bytes
    pub refs : Members
    pub manifest :
        get (text "manifest") pinned
        ≡ some (object (Json.insert (text "digest") (string (sha256_digest crates bytes)) refs))

  pin_file-IsPinned :
      (path : Text) (ms pinned : Members)
      → pin_file crates read_file path ms ≡ ok pinned
      → IsPinned path pinned
  unfolding pin_file
  pin_file-IsPinned path ms pinned h =
      let (bytes, e0, h0) = >>=-eq-ok (attempt io (read_file path)) _ h in
      let (_, e1, h1) =
        >>=-eq-ok
          (fail_if (ltb max_destination_manifest_bytes (length bytes))
            (malformed (manifest_too_large path)))
          _ h0 in
      let (refs, _, h2) = >>=-eq-ok (manifest_members ms) _ h1 in
      let ref = object (Json.insert (text "digest") (string (sha256_digest crates bytes)) refs) in
      let same : Json.insert (text "manifest") ref ms ≡ pinned = ground (arith, h2) in
      record {
        bytes = bytes;
        found = ground (arith, e0);
        sized = ground (arith, e1);
        refs = refs;
        manifest = ap (get (text "manifest")) (sym same) ∙ get-of_insert (text "manifest") ref ms;
      }

  pin-IsPinned :
      (path : Text) (ms pinned : Members)
      → get (text "manifestFile") ms ≡ some (string path)
      → pin crates read_file ms ≡ ok pinned
      → IsPinned path pinned
  unfolding pin
  pin-IsPinned path ms pinned e h =
      pin_file-IsPinned path (Json.remove (text "manifestFile") ms) pinned (ground (arith, e, h))

  digest-pinned :
      (path : Text) (pinned : Members) (e : CatalogEntry) (p : IsPinned path pinned)
      → entry_of crates (events (object pinned)) ≡ some e
      → e.manifest.digest ≡ sha256_digest crates p.bytes
  digest-pinned path pinned e p h =
      manifest_ref_of-digest _ e.manifest (sha256_digest crates p.bytes)
        (entry_of-manifest crates pinned e _ h p.manifest)
        (get-of_insert (text "digest") (string (sha256_digest crates p.bytes)) p.refs)

verify_destination-digest :
    (crates : Crates) (bytes : Bytes) (digest : Text)
    → length bytes ≤ max_destination_manifest_bytes
    → digest ≡ sha256_digest crates bytes
    → verify_destination crates bytes digest ≡ ok tt
unfolding verify_destination
verify_destination-digest crates bytes digest sized e = ground (arith, sized, e, =ᵗ_refl digest)

-- An entry that names a local manifest file is listed with that file's digest: the file is there and
-- within its bound, and a client that fetches its bytes finds that they match the entry.
pub resolve_entry-pins :
    (crates : Crates) (read_file : Text → Attempt Bytes) (ms : Members) (v : Value) (path : Text)
    → resolve_entry crates read_file (object ms) ≡ ok v
    → get (text "manifestFile") ms ≡ some (string path)
    → (bytes : Bytes) × (e : CatalogEntry) × (read_file path ≡ done bytes)
      × (v ≡ value_of_entry e)
      × (verify_destination crates bytes e.manifest.digest ≡ ok tt)
unfolding resolve_entry
resolve_entry-pins crates read_file ms v path h g =
    let (pinned, e1, h1) = >>=-eq-ok (pin crates read_file ms) _ h in
    let (e, e2, h2) =
      >>=-eq-ok (ok_or (entry_of crates (events (object pinned))) (malformed entry_schema)) _ h1 in
    let (_, _, h3) = >>=-eq-ok (check_listed crates e) _ h2 in
    let p = pin-IsPinned crates read_file path ms pinned g e1 in
    (
      p.bytes,
      e,
      p.found,
      ground (arith, h3),
      verify_destination-digest crates p.bytes e.manifest.digest p.sized
          (digest-pinned crates read_file path pinned e p (ground (arith, e2))),
    )

-- ===== src/Build/Read.antt =====
-- src/build.rs against src/verify.rs: what the verifier reads in the bytes of a build.
use onym_discovery.Prelude.{
  ◌≡◌, ◌<◌, ◌≤◌, ◌^◌, refl, ℕ, Text, Bytes, text, compare_text, ◌=ᵗ◌, length, Option, none, some,
  List, [], ◌∷◌, arith,
}
use onym_discovery.Result.{ok}
use onym_discovery.Json
use onym_discovery.Json.{
  Value, Members, end, object, array, string, events, events_values, of_values, Elements,
}
use onym_discovery.Json.Regular.{Regular, RegularValues}
use onym_discovery.Json.Deeper.{RegularValues-suc}
use onym_discovery.Canonical.{signature_field}
use onym_discovery.Crates.{Crates, from_slice}
use onym_discovery.Crates.Laws.{JsonLaws, max_depth}
use onym_discovery.Types.Constants.{implementation_profile, max_snapshot_bytes}
use onym_discovery.Types.Decode.{
  slots, string_of, uint_of, nullable, list_of, elements_of, value_of,
}
use onym_discovery.Types.Document.{snapshot_of}
use onym_discovery.Types.Records.{CatalogSnapshot, SnapshotConfig}
use onym_discovery.Build.{document_members, object_with}
use onym_discovery.Verify.Snapshot.{read_snapshot}

module _ (crates : Crates) (json : JsonLaws crates) where
  pub elements_of-events :
      (vs : List Value)
      → RegularValues max_depth (of_values vs)
      → elements_of (value_of crates) (events_values (of_values vs)) ≡ some vs
  unfolding elements_of Json.events Regular
  elements_of-events [] r = refl
  elements_of-events (v ∷ vs) (r, rs) =
      ground (arith, json.collect-events v r, elements_of-events vs rs)

-- The snapshot of a build's document.
abbrev pub read_back :
    SnapshotConfig → ℕ → Option Text → Text → Text → List Value → Text → CatalogSnapshot
read_back config n d g e entries signature = record {
  version = 1;
  implementation_profile_id = implementation_profile;
  catalog_id = config.catalog_id;
  provider_id = config.provider_id;
  sequence = n;
  previous_digest = d;
  policy_digest = config.policy_digest;
  generated_at = g;
  expires_at = e;
  entries = entries;
  signature = some signature;
}

snapshot_of-document :
    (crates : Crates) (config : SnapshotConfig) (n : ℕ) (d : Option Text) (g e : Text)
    (entries : List Value) (signature : Text)
    → n < 2 ^ 64
    → elements_of (value_of crates) (events_values (of_values entries)) ≡ some entries
    → snapshot_of crates (
        events (
          object (
            Json.insert signature_field (string signature) (
              Json.remove signature_field
                (object_with (document_members config n d g e entries) end)))))
      ≡ some (read_back config n d g e entries signature)
unfolding snapshot_of slots string_of uint_of nullable list_of text ◌=ᵗ◌ compare_text Json.insert
    Json.remove Json.events
snapshot_of-document crates config n none g e entries signature bound read = ground arith
snapshot_of-document crates config n (some d) g e entries signature bound read = ground arith

-- The signed document of a build, as `IsBuilt` and `IsEmbedded` describe it, is read back field by field.
pub read_snapshot-built :
    (crates : Crates)
    → JsonLaws crates
    → (raw : Bytes) (config : SnapshotConfig) (n : ℕ) (d : Option Text) (g e : Text)
      (entries : List Value) (signature : Text)
    → n < 2 ^ 64
    → RegularValues 125 (of_values entries)
    → length raw ≤ max_snapshot_bytes
    → crates.read raw ≡ (
      events (
          object (
            Json.insert signature_field (string signature) (
              Json.remove signature_field
                (object_with (document_members config n d g e entries) end)))),
      none,
    )
    → read_snapshot crates raw ≡ ok (read_back config n d g e entries signature)
unfolding read_snapshot from_slice
read_snapshot-built crates json raw config n d g e entries signature bound plain sized whole =
    ground (
      arith,
      sized,
      whole,
      snapshot_of-document crates config n d g e entries signature bound (
          elements_of-events crates json entries (
            RegularValues-suc 126 (of_values entries)
              (RegularValues-suc 125 (of_values entries) plain))),
    )

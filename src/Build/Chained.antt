-- ===== src/Build/Chained.antt =====
-- src/build.rs: a build stands behind the publication that it is given as the previous one.
use onym_discovery.Prelude.{
  ◌≡◌, ◌<◌, ◌+◌, ◌^◌, ◌%◌, refl, ◌∙◌, inl, inr, ℕ, Text, Bytes, text, compare_text, ◌=ᵗ◌, =ᵗ_iff,
  Option, none, some, List, arith,
}
use onym_discovery.Result.{ok, Result-cases}
use onym_discovery.Json.{Value, Members, end, object, string, events, of_values}
use onym_discovery.Canonical.{signature_field}
use onym_discovery.Crates.Laws.{JsonLaws}
use onym_discovery.Keys.{sign}
use onym_discovery.Sign.Verifies.{parse_value-to_vec, sign_document-IsEmbedded, IsEmbedded-read}
use onym_discovery.Build.Plain.{document-Regular}
use onym_discovery.Verify.Snapshot.{read_snapshot}
use onym_discovery.Json
use onym_discovery.Crates.{Crates, Attempt, from_slice}
use onym_discovery.Types.Decode.{slots, string_of, uint_of, nullable}
use onym_discovery.Types.Document.{snapshot_of}
use onym_discovery.Types.Records.{CatalogSnapshot, SnapshotConfig}
use onym_discovery.Verify.State.{
  RetainedCatalogState, successor, from_snapshot_bytes, read_previous,
}
use onym_discovery.Verify.Chain.{compare_chain}
use onym_discovery.Verify.Chain.Cases.{compare_chain_iff, next}
use onym_discovery.Build.Parts.{build_snapshot-IsBuilt}
use onym_discovery.Build.{
  BuiltSnapshot, position, document, document_members, object_with, build_snapshot,
}

-- What the verifier reads in the signed document of a build.
document-fields :
    (crates : Crates) (config : SnapshotConfig) (n : ℕ) (d : Option Text) (g e : Text)
    (entries : List Value) (signature : Text) (s : CatalogSnapshot)
    → snapshot_of crates (
        events (
          object (
            Json.insert signature_field (string signature) (
              Json.remove signature_field
                (object_with (document_members config n d g e entries) end)))))
      ≡ some s
    → (s.sequence ≡ n) × (s.previous_digest ≡ d) × (s.catalog_id ≡ config.catalog_id)
unfolding snapshot_of slots string_of uint_of nullable text ◌=ᵗ◌ compare_text Json.insert
    Json.remove Json.events
document-fields crates config n none g e entries signature s h = ground arith
document-fields crates config n (some d) g e entries signature s h = ground arith

pub position-read :
    (crates : Crates) (config : SnapshotConfig) (raw : Bytes) (policy : Option Text) (n : ℕ)
    (d : Option Text) (r : RetainedCatalogState)
    → position crates config (some raw) ≡ ok (n, d)
    → from_snapshot_bytes crates raw policy ≡ ok r
    → (n ≡ (r.sequence + 1) % 2 ^ 64) × (d ≡ some r.digest) × (config.catalog_id ≡ r.catalog_id)
unfolding position from_snapshot_bytes
position-read crates config raw policy n d r h k = elim (Result-cases (read_previous crates raw)) [
  | inl (s, e) ↦ ground (arith, e, h, k, =ᵗ_iff s.catalog_id config.catalog_id)
  | inr (inl e) ↦ absurd (ground (arith, e, h))
  | inr (inr (w, e)) ↦ absurd (ground (arith, e, h))
]

-- What a build signs behind a previous publication is that publication's successor.
pub IsBuilt-Successor :
    (crates : Crates) (config : SnapshotConfig) (previous : Bytes) (key : Bytes)
    (built : BuiltSnapshot) (policy : Option Text) (r : RetainedCatalogState) (s : CatalogSnapshot)
    → from_snapshot_bytes crates previous policy ≡ ok r
    → r.sequence + 1 < 2 ^ 64
    → s.sequence ≡ built.sequence
    → s.catalog_id ≡ config.catalog_id
    → (d : Option Text) → s.previous_digest ≡ d
    → position crates config (some previous) ≡ ok (built.sequence, d)
    → (s.catalog_id ≡ r.catalog_id) × (compare_chain s built.digest (some r) ≡ ok successor)
IsBuilt-Successor crates config previous key built policy r s k bound n' c' o d' placed =
    let (n, d, c) = position-read crates config previous policy built.sequence o r placed k in
    (
      c' ∙ c,
      (compare_chain_iff s built.digest r successor (omega (arith, n', n, bound))).1
          (next refl (omega (arith, n', n, bound)) (d' ∙ d)),
    )

read_snapshot-fields :
    (crates : Crates) (raw : Bytes) (v : Value) (s : CatalogSnapshot)
    → crates.read raw ≡ (events v, none)
    → read_snapshot crates raw ≡ ok s
    → snapshot_of crates (events v) ≡ some s
unfolding read_snapshot from_slice
read_snapshot-fields crates raw v s e h = ground (arith, e, h)

-- A build behind a previous publication is its successor: what the verifier reads in the bytes of the
-- build is of the same catalog, and the state retained from the previous publication, whose
-- sequence is not the last `u64`, accepts it as the next one.
pub build_snapshot-Successor :
    (crates : Crates)
    → JsonLaws crates
    → (read_file : Text → Attempt Bytes) (config : SnapshotConfig) (previous : Bytes)
      (generated_at : ℕ) (key : Bytes) (built : BuiltSnapshot) (policy : Option Text)
      (r : RetainedCatalogState) (s : CatalogSnapshot)
    → build_snapshot crates read_file config (some previous) generated_at key ≡ ok built
    → from_snapshot_bytes crates previous policy ≡ ok r
    → r.sequence + 1 < 2 ^ 64
    → read_snapshot crates built.bytes ≡ ok s
    → (s.catalog_id ≡ r.catalog_id) × (compare_chain s built.digest (some r) ≡ ok successor)
unfolding document
build_snapshot-Successor crates json read_file config previous generated_at key built policy r s h k
      bound t =
    let b =
      build_snapshot-IsBuilt crates read_file config (some previous) generated_at key built h in
    let ms : Members =
      object_with
        (document_members config built.sequence b.previous_digest b.generated_at b.expires_at
          b.entries)
        end in
    let plain =
      document-Regular config built.sequence b.previous_digest b.generated_at b.expires_at b.entries
        b.plain in
    let embedded =
      sign_document-IsEmbedded crates json b.unsigned built.bytes key ms
        (parse_value-to_vec crates json (object ms) b.unsigned plain b.encoded) plain b.signed in
    let whole = IsEmbedded-read crates json key ms built.bytes plain embedded in
    let (n, d, c) =
      document-fields crates config built.sequence b.previous_digest b.generated_at b.expires_at
        b.entries (sign crates key embedded.message) s
        (read_snapshot-fields crates built.bytes _ s whole t) in
    IsBuilt-Successor crates config previous key built policy r s k bound n c b.previous_digest d
      b.placed

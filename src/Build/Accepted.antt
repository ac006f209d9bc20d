-- ===== src/Build/Accepted.antt =====
-- src/build.rs against src/verify.rs: a client of the provider accepts what a build signs.
use onym_discovery.Prelude.{
  ◌≡◌, ◌<◌, ◌≤◌, ◌+◌, ◌^◌, refl, sym, subst, ℕ, Text, Bytes, false, length, find, Distinct, ◌=ᵗ◌,
  =ᵗ_refl, Option, some, List, arith,
}
use onym_discovery.Result.{ok}
use onym_discovery.Json.{Value, Members, end, object}
use onym_discovery.Json.Regular.{Regular}
use onym_discovery.Crates.{Crates, Attempt, add_duration}
use onym_discovery.Crates.Laws.{
  JsonLaws, KeyLaws, HexLaws, TextLaws, DigestLaws, TimeLaws, max_depth,
}
use onym_discovery.Keys
use onym_discovery.Keys.{operator_id, sign}
use onym_discovery.Types.Constants.{max_snapshot_bytes, max_entries, days, clock_skew}
use onym_discovery.Types.Fields.{validate_digest}
use onym_discovery.Types.Records.{CatalogSnapshot, CatalogDescriptor, SnapshotConfig}
use onym_discovery.Sign.Signed.{IsSigned}
use onym_discovery.Sign.Verifies.{
  parse_value-to_vec, sign_document-IsEmbedded, IsEmbedded, IsEmbedded-read, IsEmbedded-IsSigned,
}
use onym_discovery.Verify.State.{
  VerifiedManifest, VerifiedSnapshot, RetainedCatalogState, ChainOutcome, sha256_digest,
}
use onym_discovery.Verify.Chain.{check_policy}
use onym_discovery.Verify.Entry.{decode_entries, Decoded}
use onym_discovery.Verify.Entry.Lossy.{ids, decodable, undecodable, decode_entries_iff}
use onym_discovery.Verify.Snapshot.{
  check_header, authenticate, check_freshness, find_descriptor, accept, read_snapshot,
  verify_snapshot,
}
use onym_discovery.Build.{
  BuiltSnapshot, check_config, resolve_entries, document, document_members, object_with,
  build_snapshot,
}
use onym_discovery.Build.Parts.{IsBuilt, build_snapshot-IsBuilt}
use onym_discovery.Build.Plain.{document-Regular}
use onym_discovery.Build.Read.{read_back, read_snapshot-built}
use onym_discovery.Build.Timely.{check_freshness-built, check_config-lasting}
use onym_discovery.Build.Placed.{Awaits, IsPlaced, position-IsPlaced}

-- The signature check passes on what carries the operator's signature.
authenticate-signed :
    (crates : Crates) (raw : Bytes) (s : CatalogSnapshot) (m : VerifiedManifest)
    → IsSigned crates raw m.manifest.operator s.signature
    → authenticate crates raw s m ≡ ok tt
unfolding authenticate Keys.verify
authenticate-signed crates raw s m g =
    ground (arith, g.parsed, g.present, g.canonical, g.decompressed, g.decoded, g.valid)

check_config-policy :
    (config : SnapshotConfig)
    → check_config config ≡ ok tt
    → validate_digest config.policy_digest ≡ ok tt
unfolding check_config
check_config-policy config h = ground (arith, h)

-- The checks of `accept`, each passed.
module _ (crates : Crates) (raw : Bytes) (s : CatalogSnapshot) (m : VerifiedManifest)
    (retained : Option RetainedCatalogState) (outcome : ChainOutcome) (d : Decoded crates) where
  abbrev accepted : VerifiedSnapshot
  accepted = record {
    snapshot = s;
    entries = d.entries;
    skipped = d.skipped;
    digest = sha256_digest crates raw;
    outcome = outcome;
    policy_transition = false;
  }

  accept-placed :
      (c : CatalogDescriptor)
      → find (λ x. x.catalog_id =ᵗ s.catalog_id) m.catalogs ≡ some c
      → c.policy ≡ s.policy_digest
      → validate_digest s.policy_digest ≡ ok tt
      → IsPlaced s (sha256_digest crates raw) retained outcome
      → decode_entries crates s.entries ≡ ok d
      → accept crates raw s m retained ≡ ok accepted
  unfolding accept find_descriptor check_policy
  accept-placed c found policy valid placed listed = ground (
    arith,
    found,
    policy,
    valid,
    =ᵗ_refl s.policy_digest,
    placed.structured,
    placed.keyed,
    placed.chained,
    listed,
  )

-- The checks of `verify_snapshot`, each passed.
verify_snapshot-of_checks :
    (crates : Crates) (raw : Bytes) (s : CatalogSnapshot) (m : VerifiedManifest)
    (retained : Option RetainedCatalogState) (now : ℕ) (v : VerifiedSnapshot)
    → read_snapshot crates raw ≡ ok s
    → check_header s m ≡ ok tt
    → authenticate crates raw s m ≡ ok tt
    → check_freshness crates s now ≡ ok tt
    → accept crates raw s m retained ≡ ok v
    → verify_snapshot crates raw m retained now ≡ ok v
unfolding verify_snapshot
verify_snapshot-of_checks crates raw s m retained now v a b c d e = rw (a, b, c, d, e) refl

check_header-read_back :
    (config : SnapshotConfig) (n : ℕ) (d : Option Text) (g e : Text) (entries : List Value)
    (signature : Text) (m : VerifiedManifest)
    → m.manifest.provider_id ≡ config.provider_id
    → check_header (read_back config n d g e entries signature) m ≡ ok tt
unfolding check_header
check_header-read_back config n d g e entries signature m provider = ground (
  arith,
  provider,
  =ᵗ_refl (read_back config n d g e entries signature).implementation_profile_id,
  =ᵗ_refl config.provider_id,
)

-- The signed bytes of a build: how the verifier reads them, and whose signature they carry.
module _ (crates : Crates) (json : JsonLaws crates) (read_file : Text → Attempt Bytes)
    (config : SnapshotConfig) (previous : Option Bytes) (from : ℕ) (key : Bytes)
    (built : BuiltSnapshot) (b : IsBuilt crates read_file config previous from key built) where
  abbrev members : Members
  members =
      object_with
        (document_members config built.sequence b.previous_digest b.generated_at b.expires_at
          b.entries)
        end

  plain_members : Regular max_depth (object members)
  unfolding document
  plain_members =
      document-Regular config built.sequence b.previous_digest b.generated_at b.expires_at b.entries
        b.plain

  embedded : IsEmbedded crates json key members built.bytes
  unfolding document
  embedded =
      sign_document-IsEmbedded crates json b.unsigned built.bytes key members
        (parse_value-to_vec crates json (object members) b.unsigned plain_members b.encoded)
        plain_members b.signed

  abbrev snapshot_built : CatalogSnapshot
  snapshot_built =
      read_back config built.sequence b.previous_digest b.generated_at b.expires_at b.entries
        (sign crates key embedded.message)

  IsBuilt-read :
      built.sequence < 2 ^ 64
      → length built.bytes ≤ max_snapshot_bytes
      → read_snapshot crates built.bytes ≡ ok snapshot_built
  IsBuilt-read bound sized =
      read_snapshot-built crates json built.bytes config built.sequence b.previous_digest
        b.generated_at b.expires_at b.entries (sign crates key embedded.message) bound b.plain sized
        (IsEmbedded-read crates json key members built.bytes plain_members embedded)

  IsBuilt-authenticate :
      KeyLaws crates
      → (m : VerifiedManifest) → m.manifest.operator ≡ operator_id crates (crates.verifying_key key)
      → authenticate crates built.bytes snapshot_built m ≡ ok tt
  IsBuilt-authenticate keys m operator = authenticate-signed crates built.bytes snapshot_built m (
      subst (λ o. IsSigned crates built.bytes o snapshot_built.signature) (sym operator)
        (IsEmbedded-IsSigned crates json keys built.bytes key members plain_members embedded).1)

-- A client accepts a build while it lasts: from ten minutes before it is generated until it expires,
-- if the moment and the expiry both lie ten minutes or more before the last instant, and where the
-- manifest names the key's operator and the config's provider and declares the catalog under the
-- config's policy, the previous publication, if any, has a sequence that is neither zero nor the
-- last `u64`, the client retains that publication or nothing, the bytes are at most 1 MiB, and the
-- resolved entries are at most 512 and those that decode name different components. The snapshot is
-- accepted as the successor or as the first one, under the digest and the sequence of the build, and
-- with all its entries that decode.
pub build_snapshot-accepted :
    (crates : Crates)
    → JsonLaws crates
    → KeyLaws crates
    → HexLaws crates
    → TextLaws crates
    → DigestLaws crates
    → TimeLaws crates
    → (read_file : Text → Attempt Bytes) (config : SnapshotConfig) (previous : Option Bytes)
      (from : ℕ) (key : Bytes) (built : BuiltSnapshot) (entries : List Value) (m : VerifiedManifest)
      (c : CatalogDescriptor) (retained : Option RetainedCatalogState) (outcome : ChainOutcome)
      (now : ℕ)
    → build_snapshot crates read_file config previous from key ≡ ok built
    → length built.bytes ≤ max_snapshot_bytes
    → resolve_entries crates read_file config.entries ≡ ok entries
    → length entries ≤ max_entries
    → Distinct (ids (decodable crates entries))
    → m.manifest.operator ≡ operator_id crates (crates.verifying_key key)
    → m.manifest.provider_id ≡ config.provider_id
    → find (λ x. x.catalog_id =ᵗ config.catalog_id) m.catalogs ≡ some c
    → c.policy ≡ config.policy_digest
    → Awaits crates config previous retained outcome
    → from ≤ now + clock_skew
    → now ≤ from + days config.expiry_days
    → now + clock_skew ≤ crates.last_instant
    → from + days config.expiry_days + clock_skew ≤ crates.last_instant
    → (v : VerifiedSnapshot) × (verify_snapshot crates built.bytes m retained now ≡ ok v)
      × (v.outcome ≡ outcome)
      × (v.digest ≡ built.digest)
      × (v.snapshot.sequence ≡ built.sequence)
      × (v.entries ≡ decodable crates entries)
unfolding add_duration
build_snapshot-accepted crates json keys hex texts digests times read_file config previous from key
      built entries m c retained outcome now builds sized resolved few distinct operator provider
      found policy awaits begun lasts room room' =
    let b = build_snapshot-IsBuilt crates read_file config previous from key built builds in
    let s = snapshot_built crates json read_file config previous from key built b in
    let same : b.entries ≡ entries = ground (arith, b.resolved, resolved) in
    let placed =
      position-IsPlaced crates texts digests config previous retained outcome s
        (sha256_digest crates built.bytes) awaits b.placed refl refl in
    let d : Decoded crates = record {
      entries = decodable crates entries;
      skipped = undecodable crates 0 entries;
    } in
    let (some_days, at_most) = check_config-lasting config b.checked in
    let until : b.until ≡ from + days config.expiry_days = ground (arith, b.lasting) in
    (
      accepted crates built.bytes s m retained outcome d,
      verify_snapshot-of_checks crates built.bytes s m retained now _
          (IsBuilt-read crates json read_file config previous from key built b placed.bounded sized)
          (check_header-read_back config _ _ _ _ _ _ m provider)
          (IsBuilt-authenticate crates json read_file config previous from key built b keys m
            operator)
          (check_freshness-built crates times s from b.until now config.expiry_days b.generated
            b.expires until some_days at_most begun (omega arith) room (omega arith))
          (accept-placed crates built.bytes s m retained outcome d c found policy
            (check_config-policy config b.checked) placed
            (subst (λ es. decode_entries crates es ≡ ok d) (sym same)
              ((decode_entries_iff crates hex entries d).1 (few, distinct, refl)))),
      refl,
      sym b.pinned,
      refl,
      refl,
    )

-- ===== src/Example/Builds.antt =====
-- The theorems on builds: a build behind the first snapshot, with one entry whose digest is pinned
-- from a file.
use onym_discovery.Prelude.{
  List, Distinct, find, length, ◌≤◌, ◌=ᵗ◌, ◌+◌, ◌<◌, ◌^◌, ◌≡◌, refl, Text, Bytes, text, none, some,
  [], ◌∷◌, arith,
}
use onym_discovery.Result.{ok}
use onym_discovery.Json.{Value}
use onym_discovery.Crates.{Attempt, done}
use onym_discovery.Types.Records.{SnapshotConfig, CatalogSnapshot, CatalogDescriptor}
use onym_discovery.Verify.State.{VerifiedSnapshot, successor, from_snapshot_bytes}
use onym_discovery.Verify.Chain.{compare_chain}
use onym_discovery.Verify.Snapshot.{read_snapshot}
use onym_discovery.Build.{BuiltSnapshot, build_snapshot, resolve_entries}
use onym_discovery.Build.Chained.{build_snapshot-Successor}
use onym_discovery.Build.Placed.{Awaits, up_to_date}
use onym_discovery.Build.Accepted.{build_snapshot-accepted}
use onym_discovery.Types.Constants.{max_entries, max_snapshot_bytes, days, clock_skew}
use onym_discovery.Keys.{operator_id}
use onym_discovery.Verify.Entry.Lossy.{ids, decodable}
use onym_discovery.Verify.Snapshot.{verify_snapshot}
use onym_discovery.Example.Crates.{
  crates, json_laws, key_laws, hex_laws, text_laws, digest_laws, time_laws,
}
use onym_discovery.Example.Program.{program}
use onym_discovery.Example.Documents.{
  seed, unwrap, policy, operator, str, fields, stamp, today, snapshot_bytes₁, verified₁, retained₁,
  verified_manifest,
}

abbrev pub read_file : Text → Attempt Bytes
read_file path = done path

abbrev pub listed : Value
listed = fields (
    (text "componentId", str (text "onym:component:r"))
    ∷ (text "listedAt", str (stamp today))
    ∷ (text "manifest", fields ((text "uri", str (text "https://r.org/m.json")) ∷ []))
    ∷ (text "manifestFile", str (text "r.json"))
    ∷ (text "operator", str operator)
    ∷ (text "placement", str (text "sponsored"))
    ∷ (text "relationship", str (text "none"))
    ∷ (text "seatType", str (text "notary"))
    ∷ [])

abbrev pub config : SnapshotConfig
config = record {
  catalog_id = text "all";
  provider_id = text "onym:component:d";
  policy_digest = policy;
  expiry_days = 30;
  entries = listed ∷ [];
}

unfoldable built : BuiltSnapshot
unfolding program snapshot_bytes₁ operator
built =
    unwrap (record { bytes = []; sequence = 0; digest = [] })
      (build_snapshot crates read_file config (some snapshot_bytes₁) today seed)

builds : build_snapshot crates read_file config (some snapshot_bytes₁) today seed ≡ ok built
unfolding built
builds = refl

unfoldable read_back : CatalogSnapshot
unfolding built verified₁
read_back = unwrap verified₁.snapshot (read_snapshot crates built.bytes)

reads : read_snapshot crates built.bytes ≡ ok read_back
unfolding read_back
reads = refl

retains : from_snapshot_bytes crates snapshot_bytes₁ none ≡ ok retained₁
unfolding retained₁
retains = refl

room : retained₁.sequence + 1 < 2 ^ 64
unfolding retained₁
room = omega arith

build_snapshot-Successor_example :
    (read_back.catalog_id ≡ retained₁.catalog_id)
    × (compare_chain read_back built.digest (some retained₁) ≡ ok successor)
build_snapshot-Successor_example =
    build_snapshot-Successor crates json_laws read_file config snapshot_bytes₁ today seed built none
      retained₁ read_back builds retains room reads

-- What is listed in the build.
unfoldable resolved : List Value
unfolding program operator
resolved = unwrap [] (resolve_entries crates read_file config.entries)

resolves : resolve_entries crates read_file config.entries ≡ ok resolved
unfolding resolved
resolves = refl

few : length resolved ≤ max_entries
unfolding resolved
few = omega arith

distinct : Distinct (ids (decodable crates resolved))
unfolding resolved decodable
distinct = (tt, tt)

sized : length built.bytes ≤ max_snapshot_bytes
unfolding built
sized = omega arith

abbrev no_descriptor : CatalogDescriptor
no_descriptor = record {
  catalog_id = [];
  snapshot = [];
  audience = [];
  seat_types = [];
  policy = [];
  policy_uri = [];
}

abbrev first_of : List CatalogDescriptor → CatalogDescriptor
first_of [] = no_descriptor
first_of (c ∷ cs) = c

abbrev declared : CatalogDescriptor
declared = first_of verified_manifest.catalogs

found : find (λ x. x.catalog_id =ᵗ config.catalog_id) verified_manifest.catalogs ≡ some declared
unfolding verified_manifest
found = refl

same_operator : verified_manifest.manifest.operator ≡ operator_id crates (crates.verifying_key seed)
unfolding verified_manifest
same_operator = refl

same_provider : verified_manifest.manifest.provider_id ≡ config.provider_id
unfolding verified_manifest
same_provider = refl

same_policy : declared.policy ≡ config.policy_digest
unfolding verified_manifest
same_policy = refl

positive : 0 < retained₁.sequence
unfolding retained₁
positive = omega arith

same_retained : retained₁.provider_id ≡ config.provider_id
unfolding retained₁
same_retained = refl

awaits : Awaits crates config (some snapshot_bytes₁) (some retained₁) successor
awaits = up_to_date snapshot_bytes₁ none retained₁ retains positive room same_retained

in_range : today + days 30 + clock_skew ≤ crates.last_instant
unfolding program
in_range = omega arith

build_snapshot-accepted_example :
    (v : VerifiedSnapshot) × (verify_snapshot crates built.bytes verified_manifest
        (some retained₁)
        today
      ≡ ok v)
    × (v.outcome ≡ successor)
    × (v.digest ≡ built.digest)
    × (v.snapshot.sequence ≡ built.sequence)
    × (v.entries ≡ decodable crates resolved)
build_snapshot-accepted_example =
    build_snapshot-accepted crates json_laws key_laws hex_laws text_laws digest_laws time_laws
      read_file config (some snapshot_bytes₁) today seed built resolved verified_manifest declared
      (some retained₁) successor today builds sized resolves few distinct same_operator
      same_provider found same_policy awaits (omega arith) (omega arith) (omega (arith, in_range))
      in_range

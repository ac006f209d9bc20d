-- ===== src/Verify/State.antt =====
-- src/verify.rs: what verification keeps and returns, and the digest by which bytes are pinned.
use onym_discovery.Prelude.{ℕ, Text, Bytes, Bool, Option, none, some, List, ◌++◌, if◌then◌else◌}
use onym_discovery.Error.{malformed, labelled, previous_schema}
use onym_discovery.Prelude.{text}
use onym_discovery.Result.{Result, ok, ◌>>=◌, ◌>>◌, map_err}
use onym_discovery.Crates.{Crates, attempt, from_slice, decoded}
use onym_discovery.Types.Fields.{digest_scheme}
use onym_discovery.Types.Records.{
  ProviderManifest, CatalogDescriptor, CatalogSnapshot, CatalogEntry,
}
use onym_discovery.Types.Document.{snapshot_of}
use onym_discovery.Canonical.{reject_duplicate_keys}

pub record VerifiedManifest : Type 0 where
  pub manifest : ProviderManifest
  pub catalogs : List CatalogDescriptor
  pub skipped : List ℕ
  pub audience_skipped : List ℕ
  pub audience_skipped_ids : List Text

pub record RetainedCatalogState : Type 0 where
  pub provider_id : Text
  pub catalog_id : Text
  pub sequence : ℕ
  pub digest : Text
  pub previous_policy : Option Text

pub data ChainOutcome : Type 0 where
  first_acceptance : ChainOutcome
  successor : ChainOutcome
  no_op_refresh : ChainOutcome
  forward_jump_with_note : (missed : ℕ) → ChainOutcome

pub record VerifiedSnapshot : Type 0 where
  pub snapshot : CatalogSnapshot
  pub entries : List CatalogEntry
  pub skipped : List ℕ
  pub digest : Text
  pub outcome : ChainOutcome
  pub policy_transition : Bool

abbrev pub previous_snapshot : Text
unfolding text
previous_snapshot = text "previous snapshot"

-- `and_then(|p| p.previous_policy.clone())`
abbrev pub retained_policy : Option RetainedCatalogState → Option Text
retained_policy none = none
retained_policy (some r) = r.previous_policy

-- `RetainedCatalogState::after_acceptance`
unfoldable pub after_acceptance :
    Option RetainedCatalogState → VerifiedSnapshot → RetainedCatalogState
after_acceptance previous verified = record {
  provider_id = verified.snapshot.provider_id;
  catalog_id = verified.snapshot.catalog_id;
  sequence = verified.snapshot.sequence;
  digest = verified.digest;
  previous_policy = if verified.policy_transition then retained_policy previous else none;
}

module _ (crates : Crates) where
  open crates use {sha256, hex_encode}

  unfoldable pub sha256_digest : Bytes → Text
  sha256_digest bytes = digest_scheme ++ hex_encode (sha256 bytes)

  -- A previous snapshot's bytes, refused if a key repeats anywhere: shared with src/build.rs.
  unfoldable pub read_previous : Bytes → Result CatalogSnapshot
  read_previous raw = do
    map_err (λ e. malformed (labelled previous_snapshot e)) (reject_duplicate_keys crates raw)
    attempt (λ _. malformed previous_schema)
        (from_slice crates (λ s. decoded (snapshot_of crates s)) raw)

  -- `RetainedCatalogState::from_snapshot_bytes`
  unfoldable pub from_snapshot_bytes : Bytes → Option Text → Result RetainedCatalogState
  unfolding read_previous
  from_snapshot_bytes raw previous_policy = do
    snapshot ← read_previous raw
    ok (record {
      provider_id = snapshot.provider_id;
      catalog_id = snapshot.catalog_id;
      sequence = snapshot.sequence;
      digest = sha256_digest raw;
      previous_policy = previous_policy;
    })

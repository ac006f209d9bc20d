-- ===== src/Build/Placed.antt =====
-- src/build.rs against src/verify.rs: a build's place in the chain, for a client that has accepted the
-- previous publication, or that has accepted none.
use onym_discovery.Prelude.{
  text, ◌+◌, ◌^◌, ◌<◌, ◌≡◌, refl, ap, ◌∙◌, Text, Bytes, none, some, Option, arith, =ᵗ_iff,
}
use onym_discovery.Result.{ok, >>=-eq-ok}
use onym_discovery.Crates.{Crates}
use onym_discovery.Crates.Laws.{TextLaws, DigestLaws}
use onym_discovery.Types.Fields.{validate_digest}
use onym_discovery.Types.Fields.Alphabet.{all-is_lower_hex}
use onym_discovery.Types.Fields.Forms.{id_forms}
use onym_discovery.Types.Records.{CatalogSnapshot, SnapshotConfig}
use onym_discovery.Types.Uri.{is_some}
use onym_discovery.Build.{position}
use onym_discovery.Build.Chained.{position-read}
use onym_discovery.Verify.State.{
  RetainedCatalogState, ChainOutcome, successor, first_acceptance, from_snapshot_bytes,
  sha256_digest, read_previous,
}
use onym_discovery.Verify.Chain.Cases.{compare_chain_iff, next}
use onym_discovery.Verify.Chain.{check_retained, check_sequence, compare_chain}

-- How a client's retained state stands to the publication that a build was given as the previous one.
pub data Awaits (crates : Crates) (config : SnapshotConfig)
    : Option Bytes → Option RetainedCatalogState → ChainOutcome → Type 0 where
  genesis : Awaits crates config none none first_acceptance
  new_client :
      (previous : Bytes) (policy : Option Text) (r : RetainedCatalogState)
      → from_snapshot_bytes crates previous policy ≡ ok r
      → 0 < r.sequence
      → r.sequence + 1 < 2 ^ 64
      → Awaits crates config (some previous) none first_acceptance
  up_to_date :
      (previous : Bytes) (policy : Option Text) (r : RetainedCatalogState)
      → from_snapshot_bytes crates previous policy ≡ ok r
      → 0 < r.sequence
      → r.sequence + 1 < 2 ^ 64
      → r.provider_id ≡ config.provider_id
      → Awaits crates config (some previous) (some r) successor

-- What the verifier asks of the place.
pub record IsPlaced (s : CatalogSnapshot) (digest : Text) (retained : Option RetainedCatalogState)
    (outcome : ChainOutcome) : Type 0 where
  pub bounded : s.sequence < 2 ^ 64
  pub structured : check_sequence s ≡ ok tt
  pub keyed : check_retained s retained ≡ ok tt
  pub chained : compare_chain s digest retained ≡ ok outcome

module _ (crates : Crates) (texts : TextLaws crates) (digests : DigestLaws crates) where
  validate-sha256_digest : (bytes : Bytes) → validate_digest (sha256_digest crates bytes) ≡ ok tt
  unfolding sha256_digest text
  validate-sha256_digest bytes = (id_forms (sha256_digest crates bytes)).2.1 (
    crates.hex_encode (crates.sha256 bytes),
    refl,
    (
      omega (
        arith,
        texts.encode_length (crates.sha256 bytes) (digests.bytes bytes),
        digests.sized bytes,
      ),
      (all-is_lower_hex (crates.hex_encode (crates.sha256 bytes))).0
          (texts.encode_digits (crates.sha256 bytes) (digests.bytes bytes)),
    ),
  )

  retained-digest :
      (raw : Bytes) (policy : Option Text) (r : RetainedCatalogState)
      → from_snapshot_bytes crates raw policy ≡ ok r
      → r.digest ≡ sha256_digest crates raw
  unfolding from_snapshot_bytes
  retained-digest raw policy r h =
      let (s, _, e) = >>=-eq-ok (read_previous crates raw) _ h in ground (arith, e)

  check_sequence-behind :
      (s : CatalogSnapshot) (d : Text)
      → 1 < s.sequence
      → s.previous_digest ≡ some d
      → validate_digest d ≡ ok tt
      → check_sequence s ≡ ok tt
  unfolding check_sequence
  check_sequence-behind s d n e v = ground arith

  valid_digest :
      (raw : Bytes) (policy : Option Text) (r : RetainedCatalogState)
      → from_snapshot_bytes crates raw policy ≡ ok r
      → validate_digest r.digest ≡ ok tt
  valid_digest raw policy r h =
      ap validate_digest (retained-digest raw policy r h) ∙ validate-sha256_digest raw

  pub position-IsPlaced :
      (config : SnapshotConfig) (previous : Option Bytes) (retained : Option RetainedCatalogState)
      (outcome : ChainOutcome) (s : CatalogSnapshot) (digest : Text)
      → Awaits crates config previous retained outcome
      → position crates config previous ≡ ok (s.sequence, s.previous_digest)
      → s.catalog_id ≡ config.catalog_id
      → s.provider_id ≡ config.provider_id
      → IsPlaced s digest retained outcome
  unfolding position check_retained compare_chain check_sequence is_some
  position-IsPlaced config _ _ _ s digest genesis h c p = record {
    bounded = ground (arith, h);
    structured = ground (arith, h);
    keyed = refl;
    chained = refl;
  }
  position-IsPlaced config _ _ _ s digest (new_client previous policy r read pos bound) h c p =
      let (n, d, k) =
        position-read crates config previous policy s.sequence s.previous_digest r h read in
      record {
        bounded = omega (arith, n, bound);
        structured =
            check_sequence-behind s r.digest (omega (arith, n, pos, bound)) d
              (valid_digest previous policy r read);
        keyed = refl;
        chained = refl;
      }
  position-IsPlaced config _ _ _ s digest (up_to_date previous policy r read pos bound provider) h c
        p =
      let (n, d, k) =
        position-read crates config previous policy s.sequence s.previous_digest r h read in
      record {
        bounded = omega (arith, n, bound);
        structured =
            check_sequence-behind s r.digest (omega (arith, n, pos, bound)) d
              (valid_digest previous policy r read);
        keyed = ground (
          arith,
          k,
          c,
          p,
          provider,
          =ᵗ_iff r.provider_id s.provider_id,
          =ᵗ_iff r.catalog_id s.catalog_id,
        );
        chained =
            (compare_chain_iff s digest r successor (omega (arith, n, bound))).1
              (next refl (omega (arith, n, bound)) d);
      }

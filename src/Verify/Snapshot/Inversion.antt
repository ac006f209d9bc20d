-- ===== src/Verify/Snapshot/Inversion.antt =====
-- What an accepted snapshot has passed, check by check (src/verify.rs, `verify_snapshot`).
use onym_discovery.Prelude.{ℕ, ◌≤◌, ◌≡◌, Bytes, Option, length, arith}
use onym_discovery.Result.{ok, >>=-eq-ok}
use onym_discovery.Crates.{Crates, done, from_slice, decoded}
use onym_discovery.Types.Constants.{max_snapshot_bytes}
use onym_discovery.Types.Records.{CatalogDescriptor}
use onym_discovery.Types.Document.{snapshot_of}
use onym_discovery.Verify.State.{
  VerifiedManifest, RetainedCatalogState, VerifiedSnapshot, sha256_digest,
}
use onym_discovery.Verify.Chain.{check_retained, check_policy, check_sequence, compare_chain}
use onym_discovery.Verify.Entry.{decode_entries}
use onym_discovery.Verify.Snapshot.{
  check_header, authenticate, check_freshness, find_descriptor, accept, verify_snapshot,
  read_snapshot,
}

pub record IsAccepted (crates : Crates) (raw : Bytes) (m : VerifiedManifest)
    (retained : Option RetainedCatalogState) (now : ℕ) (v : VerifiedSnapshot) : Type 0 where
  pub sized : length raw ≤ max_snapshot_bytes
  pub read : from_slice crates (λ st. decoded (snapshot_of crates st)) raw ≡ done v.snapshot
  pub header : check_header v.snapshot m ≡ ok tt
  pub signed : authenticate crates raw v.snapshot m ≡ ok tt
  pub fresh : check_freshness crates v.snapshot now ≡ ok tt
  pub descriptor : CatalogDescriptor
  pub declared : find_descriptor v.snapshot m ≡ ok descriptor
  pub keyed : check_retained v.snapshot retained ≡ ok tt
  pub policy : check_policy v.snapshot descriptor.policy retained ≡ ok v.policy_transition
  pub structured : check_sequence v.snapshot ≡ ok tt
  pub chained : compare_chain v.snapshot v.digest retained ≡ ok v.outcome
  pub listed :
      decode_entries crates v.snapshot.entries
      ≡ ok (record { entries = v.entries; skipped = v.skipped })
  pub pinned : v.digest ≡ sha256_digest crates raw

module _ (crates : Crates) (raw : Bytes) (m : VerifiedManifest)
    (retained : Option RetainedCatalogState) (now : ℕ) (v : VerifiedSnapshot) where
  -- The checks that come before `accept`.
  verify_snapshot-eq-ok :
      verify_snapshot crates raw m retained now ≡ ok v
      → (length raw ≤ max_snapshot_bytes)
        × (from_slice crates (λ st. decoded (snapshot_of crates st)) raw ≡ done v.snapshot)
        × (check_header v.snapshot m ≡ ok tt)
        × (authenticate crates raw v.snapshot m ≡ ok tt)
        × (check_freshness crates v.snapshot now ≡ ok tt)
        × (accept crates raw v.snapshot m retained ≡ ok v)
  unfolding verify_snapshot read_snapshot accept
  verify_snapshot-eq-ok h = ground arith

  pub verify_snapshot-IsAccepted :
      verify_snapshot crates raw m retained now ≡ ok v → IsAccepted crates raw m retained now v
  unfolding accept
  verify_snapshot-IsAccepted h =
      let (sized, read, header, signed, fresh, accepted) = verify_snapshot-eq-ok h in
      let (c, declared, rest) = >>=-eq-ok (find_descriptor v.snapshot m) _ accepted in
      record {
        sized = sized;
        read = read;
        header = header;
        signed = signed;
        fresh = fresh;
        descriptor = c;
        declared = declared;
        keyed = ground (arith, rest);
        policy = ground (arith, rest);
        structured = ground (arith, rest);
        chained = ground (arith, rest);
        listed = ground (arith, rest);
        pinned = ground (arith, rest);
      }

-- ===== src/Example/Snapshots.antt =====
-- The theorems on snapshots, at the documents.
use onym_discovery.Prelude.{
  ◌+◌, ℕ, ◌≡◌, ◌<◌, ◌↔◌, ◌≢◌, refl, none, some, false, arith, List, [], ◌∷◌, text, ◌^◌, length, ◌≤◌,
  Distinct,
}
use onym_discovery.Error.{
  snapshot_invalid, snapshot_expired, snapshot_expired_at, rollback, fork_same_sequence,
  fork_previous_digest, inconsistent_jump,
}
use onym_discovery.Json.{Value}
use onym_discovery.Result.{ok, err, panic}
use onym_discovery.Types.Records.{CatalogSnapshot}
use onym_discovery.Types.Constants.{max_entries}
use onym_discovery.Sign.Signed.{IsSigned}
use onym_discovery.Verify.State.{RetainedCatalogState, successor, after_acceptance}
use onym_discovery.Verify.Chain.{compare_chain}
use onym_discovery.Verify.Chain.Cases.{Follows, compare_chain_iff, compare_chain_errors}
use onym_discovery.Verify.Entry.{decode_entries, Decoded}
use onym_discovery.Verify.Entry.Lossy.{ids, decodable, undecodable, decode_entries_iff}
use onym_discovery.Verify.Snapshot.{verify_snapshot, read_snapshot}
use onym_discovery.Verify.Snapshot.Trust.{IsTrusted, verify_snapshot-IsTrusted}
use onym_discovery.Verify.Snapshot.Accusations.{accusation-IsSigned}
use onym_discovery.Verify.Snapshot.Bounds.{IsBounded, verify_snapshot-IsBounded}
use onym_discovery.Verify.Snapshot.Total.{verify_snapshot-Returns}
use onym_discovery.Verify.Snapshot.History.{
  Reach, here, next, accept, Advances, Reach-Advances, grace_ends,
}
use onym_discovery.Example.Crates.{crates, hex_laws}
use onym_discovery.Example.Program.{program}
use onym_discovery.Example.Documents.{
  snapshot_bytes₁, verified_manifest, verified₁, retained₁, today, snapshot_bytes₂, verified₂,
  entry_value, str, policy,
}

verifies₁ : verify_snapshot crates snapshot_bytes₁ verified_manifest none today ≡ ok verified₁
unfolding verified₁
verifies₁ = refl

verifies₂ :
    verify_snapshot crates snapshot_bytes₂ verified_manifest (some retained₁) today ≡ ok verified₂
unfolding verified₂
verifies₂ = refl

succeeds : verified₂.outcome ≡ successor
unfolding verified₂
succeeds = refl

verify_snapshot-IsTrusted_example :
    IsTrusted crates snapshot_bytes₂ verified_manifest (some retained₁) today verified₂
verify_snapshot-IsTrusted_example =
    verify_snapshot-IsTrusted crates snapshot_bytes₂ verified_manifest (some retained₁) today
      verified₂ verifies₂

path₂ : Reach crates retained₁ (after_acceptance (some retained₁) verified₂)
path₂ = next here (accept snapshot_bytes₂ verified_manifest today verified₂ verifies₂ refl)

Reach-Advances_example : Advances retained₁ (after_acceptance (some retained₁) verified₂)
Reach-Advances_example = Reach-Advances crates path₂

current₁ : verified₁.policy_transition ≡ false
unfolding verified₁
current₁ = refl

path₁ : Reach crates (after_acceptance none verified₁) retained₁
unfolding retained₁
path₁ = here

grace_ends_example : verified₂.policy_transition ≡ false
grace_ends_example =
    grace_ends crates none verified₁ current₁ path₁ snapshot_bytes₂ verified_manifest today
      verified₂ verifies₂

-- A year later the second snapshot has expired.
abbrev next_year : ℕ
next_year = today + 31_536_000_000_000_000

expired :
    verify_snapshot crates snapshot_bytes₂ verified_manifest none next_year
    ≡ err (snapshot_expired (snapshot_expired_at verified₂.snapshot.expires_at))
unfolding verified₂
expired = refl

accusation-IsSigned_example :
    (s : CatalogSnapshot) × (read_snapshot crates snapshot_bytes₂ ≡ ok s)
    × IsSigned crates snapshot_bytes₂ verified_manifest.manifest.operator s.signature
accusation-IsSigned_example =
    accusation-IsSigned crates snapshot_bytes₂ verified_manifest none next_year
      (snapshot_expired (snapshot_expired_at verified₂.snapshot.expires_at)) expired tt

room : today + 7_777_200_000_000_000 ≤ crates.last_instant
unfolding program
room = omega arith

verify_snapshot-Returns_example :
    verify_snapshot crates snapshot_bytes₁ verified_manifest none today ≢ panic
verify_snapshot-Returns_example =
    verify_snapshot-Returns crates hex_laws snapshot_bytes₁ verified_manifest none today room

sequence₂ : verified₂.snapshot.sequence < 2 ^ 64
unfolding verified₂
sequence₂ = omega arith

abbrev retained₂ : RetainedCatalogState
retained₂ = after_acceptance (some retained₁) verified₂

sequence₁ : verified₁.snapshot.sequence < 2 ^ 64
unfolding verified₁
sequence₁ = omega arith

compare_chain_iff_example :
    (compare_chain verified₂.snapshot verified₂.digest (some retained₁) ≡ ok successor)
    ↔ Follows verified₂.snapshot verified₂.digest retained₁ successor
compare_chain_iff_example =
    compare_chain_iff verified₂.snapshot verified₂.digest retained₁ successor sequence₂

-- A catalog's values: one entry that decodes and one that does not.
abbrev listed : List Value
listed = entry_value (text "r") policy ∷ str (text "junk") ∷ []

abbrev gathered : Decoded crates
gathered = record { entries = decodable crates listed; skipped = undecodable crates 0 listed }

decode_entries_iff_example : (decode_entries crates listed ≡ ok gathered) ↔ (
    (length listed ≤ max_entries)
    × Distinct (ids (decodable crates listed))
    × (gathered
        ≡ record { entries = decodable crates listed; skipped = undecodable crates 0 listed }))
decode_entries_iff_example = decode_entries_iff crates hex_laws listed gathered

compare_chain_errors_example :
    ((compare_chain verified₁.snapshot verified₁.digest (some retained₂)
        ≡ err (snapshot_invalid (rollback verified₁.snapshot.sequence retained₂.sequence)))
      ↔ (verified₁.snapshot.sequence < retained₂.sequence))
    × ((compare_chain verified₁.snapshot verified₁.digest (some retained₂)
          ≡ err (snapshot_invalid (fork_same_sequence verified₁.snapshot.sequence)))
        ↔ ((verified₁.snapshot.sequence ≡ retained₂.sequence)
            × (verified₁.digest ≢ retained₂.digest)))
    × ((compare_chain verified₁.snapshot verified₁.digest (some retained₂)
          ≡ err (snapshot_invalid fork_previous_digest))
        ↔ ((verified₁.snapshot.sequence ≡ retained₂.sequence + 1)
            × (verified₁.snapshot.previous_digest ≢ some retained₂.digest)))
    × ((compare_chain verified₁.snapshot verified₁.digest (some retained₂)
          ≡ err
              (snapshot_invalid (inconsistent_jump verified₁.snapshot.sequence retained₂.sequence)))
        ↔ ((retained₂.sequence + 1 < verified₁.snapshot.sequence)
            × (verified₁.snapshot.previous_digest ≡ some retained₂.digest)))
compare_chain_errors_example =
    compare_chain_errors verified₁.snapshot verified₁.digest retained₂ sequence₁

-- The first snapshot lists one entry that decodes and one that does not.
verify_snapshot-IsBounded_example : IsBounded snapshot_bytes₁ verified₁
verify_snapshot-IsBounded_example =
    verify_snapshot-IsBounded crates hex_laws snapshot_bytes₁ verified_manifest none today verified₁
      verifies₁

-- ===== src/Verify/Snapshot/Accusations.antt =====
-- src/verify.rs, `verify_snapshot`: nothing is laid to a provider's charge over unsigned bytes.
use onym_discovery.Prelude.{ℕ, ◌≡◌, inl, inr, Bytes, Option, arith}
use onym_discovery.Error.{
  Error, snapshot_invalid, snapshot_expired, unsigned, rollback, fork_same_sequence,
  fork_previous_digest, inconsistent_jump, future_dated, expires_before_generated, window_too_long,
  duplicate_component_id,
}
use onym_discovery.Result.{Result, ok, err, ◌>>◌, >>=-eq-err}
use onym_discovery.Crates.{Crates}
use onym_discovery.Sign.Signed.{IsSigned, IsSigned-of_checks}
use onym_discovery.Types.Records.{CatalogSnapshot}
use onym_discovery.Verify.Chain.{invalid}
use onym_discovery.Verify.State.{VerifiedManifest, RetainedCatalogState, VerifiedSnapshot}
use onym_discovery.Verify.Snapshot.{
  check_header, authenticate, check_freshness, accept, verify_snapshot, read_snapshot,
}

-- The refusals that say something of what the provider has published.
abbrev pub Accuses : Error → Type 0
Accuses (snapshot_expired _) = Unit
Accuses (snapshot_invalid (rollback _ _)) = Unit
Accuses (snapshot_invalid (fork_same_sequence _)) = Unit
Accuses (snapshot_invalid fork_previous_digest) = Unit
Accuses (snapshot_invalid (inconsistent_jump _ _)) = Unit
Accuses (snapshot_invalid (future_dated _)) = Unit
Accuses (snapshot_invalid expires_before_generated) = Unit
Accuses (snapshot_invalid window_too_long) = Unit
Accuses (snapshot_invalid (duplicate_component_id _)) = Unit
Accuses _ = ⊥

check_header-Accuses :
    (s : CatalogSnapshot) (m : VerifiedManifest) (e : Error)
    → check_header s m ≡ err e
    → ¬ Accuses e
unfolding check_header
check_header-Accuses s m e h = ground arith

authenticate-Accuses :
    (crates : Crates) (raw : Bytes) (s : CatalogSnapshot) (m : VerifiedManifest) (e : Error)
    → authenticate crates raw s m ≡ err e
    → ¬ Accuses e
unfolding authenticate
authenticate-Accuses crates raw s m e h = ground arith

module _ (crates : Crates) (raw : Bytes) (m : VerifiedManifest)
    (retained : Option RetainedCatalogState) (now : ℕ) where
  abbrev rest : CatalogSnapshot → Result VerifiedSnapshot
  rest s = do check_freshness crates s now; accept crates raw s m retained

  signed_of_accusation :
      (s : CatalogSnapshot) (e : Error)
      → (do check_header s m; authenticate crates raw s m; rest s) ≡ err e
      → Accuses e
      → authenticate crates raw s m ≡ ok tt
  signed_of_accusation s e h acc = elim (>>=-eq-err (check_header s m) _ h) [
    | inl p ↦ absurd (check_header-Accuses s m e p acc)
    | inr (_, _, q) ↦ elim (>>=-eq-err (authenticate crates raw s m) (λ _. rest s) q) [
      | inl p ↦ absurd (authenticate-Accuses crates raw s m e p acc)
      | inr (_, p, _) ↦ p
    ]
  ]

  read_snapshot-Accuses : (e : Error) → read_snapshot crates raw ≡ err e → ¬ Accuses e
  unfolding read_snapshot
  read_snapshot-Accuses e h = ground arith

-- If `verify_snapshot` refuses with an error that accuses the provider (expired, dated in the
-- future, a bad validity window, a rollback, a fork, an inconsistent jump, a component listed
-- twice), then the bytes are within the bound, decode to a snapshot and carry the operator's signature.
pub accusation-IsSigned :
    (crates : Crates) (raw : Bytes) (m : VerifiedManifest) (retained : Option RetainedCatalogState)
    (now : ℕ) (e : Error)
    → verify_snapshot crates raw m retained now ≡ err e
    → Accuses e
    → (s : CatalogSnapshot) × (read_snapshot crates raw ≡ ok s)
      × IsSigned crates raw m.manifest.operator s.signature
unfolding verify_snapshot authenticate
accusation-IsSigned crates raw m retained now e h acc =
    elim (>>=-eq-err (read_snapshot crates raw) _ h) [
      | inl p ↦ absurd (read_snapshot-Accuses crates raw m retained now e p acc)
      | inr (s, p, q) ↦ (
        s,
        p,
        IsSigned-of_checks crates raw m.manifest.operator s.signature invalid
            (snapshot_invalid unsigned) (signed_of_accusation crates raw m retained now s e q acc),
      )
    ]

-- ===== src/Verify/Snapshot/Against.antt =====
-- src/verify.rs, `verify_snapshot`: how an accepted snapshot stands to the retained state.
use onym_discovery.Prelude.{ℕ, ◌≡◌, Bytes, Option, none, some, arith}
use onym_discovery.Result.{ok}
use onym_discovery.Crates.{Crates}
use onym_discovery.Verify.State.{
  VerifiedManifest, RetainedCatalogState, VerifiedSnapshot, first_acceptance,
}
use onym_discovery.Verify.Chain.{compare_chain}
use onym_discovery.Verify.Chain.Cases.{Follows, compare_chain_iff}
use onym_discovery.Verify.Snapshot.{verify_snapshot}
use onym_discovery.Verify.Snapshot.Bounds.{read-sequence}
use onym_discovery.Verify.Snapshot.History.{check_retained-eq}
use onym_discovery.Verify.Snapshot.Inversion.{verify_snapshot-IsAccepted}

-- With nothing retained, a first snapshot; else one of the retained provider and catalog, which is the
-- retained publication again, the next one, or a later one.
pub data IsAgainst (v : VerifiedSnapshot) : Option RetainedCatalogState → Type 0 where
  unretained : v.outcome ≡ first_acceptance → IsAgainst v none
  retained :
      (r : RetainedCatalogState)
      → v.snapshot.provider_id ≡ r.provider_id
      → v.snapshot.catalog_id ≡ r.catalog_id
      → Follows v.snapshot v.digest r v.outcome
      → IsAgainst v (some r)

pub verify_snapshot-IsAgainst :
    (crates : Crates) (raw : Bytes) (m : VerifiedManifest) (retained : Option RetainedCatalogState)
    (now : ℕ) (v : VerifiedSnapshot)
    → verify_snapshot crates raw m retained now ≡ ok v
    → IsAgainst v retained
unfolding compare_chain
verify_snapshot-IsAgainst crates raw m none now v h =
    let a = verify_snapshot-IsAccepted crates raw m none now v h in
    unretained (ground (arith, a.chained))
verify_snapshot-IsAgainst crates raw m (some r) now v h =
    let a = verify_snapshot-IsAccepted crates raw m (some r) now v h in
    let (provider, catalog) = check_retained-eq v.snapshot r a.keyed in
    retained r provider catalog (
      (compare_chain_iff v.snapshot v.digest r v.outcome
          (read-sequence crates raw v.snapshot a.read)).0
        a.chained)

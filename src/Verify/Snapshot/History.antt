-- ===== src/Verify/Snapshot/History.antt =====
-- The life of one catalog's retained state (src/verify.rs): each accepted snapshot is verified
-- against the state that the one before it left, by `after_acceptance`.
use onym_discovery.Prelude.{
  ℕ, ◌<◌, ◌≡◌, ◌⊎◌, ◌∙◌, Text, Bytes, Bool, false, Option, none, some, arith, =ᵗ_iff,
}
use onym_discovery.Result.{ok}
use onym_discovery.Crates.{Crates}
use onym_discovery.Types.Records.{CatalogSnapshot}
use onym_discovery.Verify.State.{
  VerifiedManifest, RetainedCatalogState, VerifiedSnapshot, ChainOutcome, after_acceptance,
  retained_policy,
}
use onym_discovery.Verify.Chain.{check_policy, check_retained, compare_chain}
use onym_discovery.Verify.Snapshot.{verify_snapshot}
use onym_discovery.Verify.Snapshot.Inversion.{verify_snapshot-IsAccepted}

module _ (crates : Crates) where
  -- A client accepts a snapshot and retains the state that follows from it.
  pub data Step (before : Option RetainedCatalogState) (after : RetainedCatalogState) : Type 0 where
    accept :
        (raw : Bytes) (m : VerifiedManifest) (now : ℕ) (v : VerifiedSnapshot)
        → verify_snapshot crates raw m before now ≡ ok v
        → after ≡ after_acceptance before v
        → Step before after

  pub data Reach (r : RetainedCatalogState) : RetainedCatalogState → Type 0 where
    here : Reach r r
    next : {s t : RetainedCatalogState} → Reach r s → Step (some s) t → Reach r t

-- What never goes back.
pub record Advances (r t : RetainedCatalogState) : Type 0 where
  pub provider : t.provider_id ≡ r.provider_id
  pub catalog : t.catalog_id ≡ r.catalog_id
  pub publication : (r.sequence < t.sequence) ⊎ ((t.sequence ≡ r.sequence) × (t.digest ≡ r.digest))
  pub policy : (t.previous_policy ≡ none) ⊎ (t.previous_policy ≡ r.previous_policy)

Advances-refl : (r : RetainedCatalogState) → Advances r r
Advances-refl r = ground arith

Advances-trans : (r s t : RetainedCatalogState) → Advances r s → Advances s t → Advances r t
Advances-trans r s t a b = record {
  provider = b.provider ∙ a.provider;
  catalog = b.catalog ∙ a.catalog;
  publication = ground arith;
  policy = ground arith;
}

compare_chain-advances :
    (s : CatalogSnapshot) (digest : Text) (r : RetainedCatalogState) (o : ChainOutcome)
    → compare_chain s digest (some r) ≡ ok o
    → (r.sequence < s.sequence) ⊎ ((s.sequence ≡ r.sequence) × (digest ≡ r.digest))
unfolding compare_chain
compare_chain-advances s digest r o h = ground (arith, =ᵗ_iff digest r.digest)

pub check_retained-eq :
    (s : CatalogSnapshot) (r : RetainedCatalogState)
    → check_retained s (some r) ≡ ok tt
    → (s.provider_id ≡ r.provider_id) × (s.catalog_id ≡ r.catalog_id)
unfolding check_retained
check_retained-eq s r h =
    ground (arith, =ᵗ_iff r.provider_id s.provider_id, =ᵗ_iff r.catalog_id s.catalog_id)

module _ (crates : Crates) where
  Step-Advances : {r t : RetainedCatalogState} → Step crates (some r) t → Advances r t
  unfolding after_acceptance
  Step-Advances {r} (accept raw m now v h e) =
      let a = verify_snapshot-IsAccepted crates raw m (some r) now v h in
      let forward = compare_chain-advances v.snapshot v.digest r v.outcome a.chained in
      let (p, c) = check_retained-eq v.snapshot r a.keyed in
      rw e (record { provider = p; catalog = c; publication = forward; policy = ground arith })

-- Along any run of accepted snapshots, of whatever manifests and times, the retained state keeps
-- its provider and catalog, its sequence rises, or stays with the same digest,
-- and its previous policy is the one at the start or gone.
pub Reach-Advances :
    (crates : Crates) {r t : RetainedCatalogState} → Reach crates r t → Advances r t
Reach-Advances crates {r} here = Advances-refl r
Reach-Advances crates {r} (next {s} {t} path step) =
    Advances-trans r s t (Reach-Advances crates path) (Step-Advances crates step)

transition-false :
    (s : CatalogSnapshot) (c : Text) (retained : Option RetainedCatalogState) (b : Bool)
    → check_policy s c retained ≡ ok b
    → retained_policy retained ≡ none
    → b ≡ false
unfolding check_policy
transition-false s c retained b h none_kept = ground arith

-- The transition grace ends with the first accepted snapshot that cites the current policy: of the
-- snapshots accepted later, of whatever manifests and times, none passes by the grace.
pub grace_ends :
    (crates : Crates) {t : RetainedCatalogState} (r₀ : Option RetainedCatalogState)
    (v₀ : VerifiedSnapshot)
    → v₀.policy_transition ≡ false
    → Reach crates (after_acceptance r₀ v₀) t
    → (raw : Bytes) (m : VerifiedManifest) (now : ℕ) (v : VerifiedSnapshot)
    → verify_snapshot crates raw m (some t) now ≡ ok v
    → v.policy_transition ≡ false
unfolding after_acceptance
grace_ends crates {t} r₀ v₀ f path raw m now v h =
    let a = verify_snapshot-IsAccepted crates raw m (some t) now v h in
    transition-false v.snapshot a.descriptor.policy (some t) v.policy_transition a.policy
      (ground (arith, (Reach-Advances crates path).policy))

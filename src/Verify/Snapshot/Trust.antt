-- ===== src/Verify/Snapshot/Trust.antt =====
-- What an accepted snapshot guarantees to the client (src/verify.rs, `verify_snapshot`).
use onym_discovery.Prelude.{
  ℕ, ◌+◌, ◌≤◌, ◌<◌, ◌≡◌, ◌≢◌, ◌⊎◌, inl, inr, Text, Bytes, Bool, true, false, Option, some, List, [],
  ◌∷◌, find, arith, =ᵗ_iff, ◌=ᵗ◌, Exists, here, there, Bool-cases, Option-cases,
}
use onym_discovery.Error.{snapshot_invalid, unsigned}
use onym_discovery.Sign.Signed.{IsSigned, IsSigned-of_checks}
use onym_discovery.Result.{ok, >>=-eq-ok, map_err-eq-ok}
use onym_discovery.Crates.{Crates, add_duration}
use onym_discovery.Types.Constants.{max_expiry_window, clock_skew, implementation_profile}
use onym_discovery.Types.Records.{CatalogSnapshot, CatalogDescriptor}
use onym_discovery.Types.Fields.{parse_timestamp}
use onym_discovery.Verify.State.{
  VerifiedManifest, RetainedCatalogState, VerifiedSnapshot, retained_policy,
}
use onym_discovery.Verify.Chain.{check_policy, invalid}
use onym_discovery.Verify.Chain.Cases.{is_text_iff}
use onym_discovery.Verify.Snapshot.{
  check_header, authenticate, check_freshness, find_descriptor, verify_snapshot,
}
use onym_discovery.Verify.Snapshot.Inversion.{verify_snapshot-IsAccepted}

module _ (crates : Crates) where
  -- The times of a fresh snapshot, with the allowance for clocks that differ.
  pub record IsFresh (s : CatalogSnapshot) (now : ℕ) : Type 0 where
    pub generated_at : ℕ
    pub expires_at : ℕ
    pub generated : parse_timestamp crates s.generated_at ≡ ok generated_at
    pub expires : parse_timestamp crates s.expires_at ≡ ok expires_at
    pub ordered : generated_at < expires_at
    pub bounded : expires_at ≤ generated_at + max_expiry_window
    pub not_future : generated_at ≤ now + clock_skew
    pub not_expired : now ≤ expires_at + clock_skew

-- Which policy a snapshot cites: the declared one, or in transition the retained previous one.
abbrev pub CitesPolicy :
    CatalogSnapshot → CatalogDescriptor → Option RetainedCatalogState → Bool → Type 0
CitesPolicy s c retained transition =
    ((transition ≡ false) × (s.policy_digest ≡ c.policy))
    ⊎ ((transition ≡ true)
        × (s.policy_digest ≢ c.policy)
        × (retained_policy retained ≡ some s.policy_digest))

find-Exists :
    (cs : List CatalogDescriptor) (k : Text) (c : CatalogDescriptor)
    → find (λ d. d.catalog_id =ᵗ k) cs ≡ some c
    → Exists (λ d. (d ≡ c) × (d.catalog_id ≡ k)) cs
find-Exists [] k c h = cc
find-Exists (d ∷ cs) k c h = elim (Bool-cases (d.catalog_id =ᵗ k)) [
  | inl e ↦ here (ground arith, (=ᵗ_iff _ k).0 e)
  | inr e ↦ there (find-Exists cs k c (ground arith))
]

module _ (crates : Crates) (s : CatalogSnapshot) (now : ℕ) where
  check_freshness-IsFresh : check_freshness crates s now ≡ ok tt → IsFresh crates s now
  unfolding check_freshness add_duration
  check_freshness-IsFresh h =
      let (g, e0, h0) = >>=-eq-ok _ _ h in
      let (e, e1, h1) = >>=-eq-ok _ _ h0 in
      record {
        generated_at = g;
        expires_at = e;
        generated = map_err-eq-ok _ _ e0;
        expires = map_err-eq-ok _ _ e1;
        ordered = ground (arith, h1);
        bounded = ground (arith, h1);
        not_future = ground (arith, h1);
        not_expired = ground (arith, h1);
      }

check_policy-CitesPolicy :
    (s : CatalogSnapshot) (c : CatalogDescriptor) (retained : Option RetainedCatalogState)
    (transition : Bool)
    → check_policy s c.policy retained ≡ ok transition
    → CitesPolicy s c retained transition
unfolding check_policy
check_policy-CitesPolicy s c retained transition h =
    ground (
      arith,
      =ᵗ_iff s.policy_digest c.policy,
      is_text_iff (retained_policy retained) s.policy_digest,
    )

find_descriptor-Exists :
    (s : CatalogSnapshot) (m : VerifiedManifest) (c : CatalogDescriptor)
    → find_descriptor s m ≡ ok c
    → Exists (λ d. (d ≡ c) × (d.catalog_id ≡ s.catalog_id)) m.catalogs
unfolding find_descriptor
find_descriptor-Exists s m c h =
    elim (Option-cases (find (λ d. d.catalog_id =ᵗ s.catalog_id) m.catalogs)) [
      | inl e ↦ absurd (cc (rw e at h))
      | inr (d, e) ↦ find-Exists m.catalogs s.catalog_id c (ground arith)
    ]

-- What the client may rely on: who signed the bytes, when, for which catalog and policy.
pub record IsTrusted (crates : Crates) (raw : Bytes) (m : VerifiedManifest)
    (retained : Option RetainedCatalogState) (now : ℕ) (v : VerifiedSnapshot) : Type 0 where
  pub signed : IsSigned crates raw m.manifest.operator v.snapshot.signature
  pub fresh : IsFresh crates v.snapshot now
  pub version : v.snapshot.version ≡ 1
  pub profile : v.snapshot.implementation_profile_id ≡ implementation_profile
  pub provider : v.snapshot.provider_id ≡ m.manifest.provider_id
  pub descriptor : CatalogDescriptor
  pub declared : Exists (λ d. (d ≡ descriptor) × (d.catalog_id ≡ v.snapshot.catalog_id)) m.catalogs
  pub policy : CitesPolicy v.snapshot descriptor retained v.policy_transition

check_header-fields :
    (s : CatalogSnapshot) (m : VerifiedManifest)
    → check_header s m ≡ ok tt
    → (s.version ≡ 1)
      × (s.implementation_profile_id ≡ implementation_profile)
      × (s.provider_id ≡ m.manifest.provider_id)
unfolding check_header
check_header-fields s m h = ground (
  arith,
  =ᵗ_iff s.implementation_profile_id implementation_profile,
  =ᵗ_iff s.provider_id m.manifest.provider_id,
)

-- A snapshot that `verify_snapshot` accepts is signed by the operator of the manifest over the
-- canonical form of its exact bytes; it was generated before it expires, at most ninety days
-- before, not after now and not expired now, with ten minutes of allowance each way; its version,
-- profile and provider are right; its catalog is declared by the manifest; and it cites the
-- declared policy, or, flagged as a transition, the retained previous one.
pub verify_snapshot-IsTrusted :
    (crates : Crates) (raw : Bytes) (m : VerifiedManifest) (retained : Option RetainedCatalogState)
    (now : ℕ) (v : VerifiedSnapshot)
    → verify_snapshot crates raw m retained now ≡ ok v
    → IsTrusted crates raw m retained now v
unfolding authenticate
verify_snapshot-IsTrusted crates raw m retained now v h =
    let a = verify_snapshot-IsAccepted crates raw m retained now v h in
    let (version, profile, provider) = check_header-fields v.snapshot m a.header in
    record {
      signed =
          IsSigned-of_checks crates raw m.manifest.operator v.snapshot.signature invalid
            (snapshot_invalid unsigned) a.signed;
      fresh = check_freshness-IsFresh crates v.snapshot now a.fresh;
      version = version;
      profile = profile;
      provider = provider;
      descriptor = a.descriptor;
      declared = find_descriptor-Exists v.snapshot m a.descriptor a.declared;
      policy =
          check_policy-CitesPolicy v.snapshot a.descriptor retained v.policy_transition a.policy;
    }

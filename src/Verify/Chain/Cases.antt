-- ===== src/Verify/Chain/Cases.antt =====
-- The four cases of src/verify.rs against a description of them by the numbers alone.
use onym_discovery.Prelude.{
  ℕ, ◌+◌, ◌-◌, ◌^◌, ◌<◌, ◌≡◌, ◌≢◌, ◌↔◌, Text, true, Option, none, some, arith, ◌⊎◌, =ᵗ_iff, inl,
  inr,
}
use onym_discovery.Error.{
  snapshot_invalid, rollback, fork_same_sequence, fork_previous_digest, inconsistent_jump,
}
use onym_discovery.Result.{ok, err}
use onym_discovery.Types.Records.{CatalogSnapshot}
use onym_discovery.Verify.State.{
  RetainedCatalogState, ChainOutcome, successor, no_op_refresh, forward_jump_with_note,
}
use onym_discovery.Verify.Chain.{is_text, compare_chain}

pub is_text_iff : (o : Option Text) (b : Text) → (is_text o b ≡ true) ↔ (o ≡ some b)
is_text_iff none b = ground arith
is_text_iff (some a) b = ground (arith, =ᵗ_iff a b)

-- How an accepted snapshot stands to the retained one: the same publication, the next one, or a
-- later one with `missed` between, which does not claim to be the next.
pub data Follows (s : CatalogSnapshot) (digest : Text) (r : RetainedCatalogState) (o : ChainOutcome)
    : Type 0 where
  same : o ≡ no_op_refresh → s.sequence ≡ r.sequence → digest ≡ r.digest → Follows s digest r o
  next :
      o ≡ successor
      → s.sequence ≡ r.sequence + 1
      → s.previous_digest ≡ some r.digest
      → Follows s digest r o
  ahead :
      (missed : ℕ)
      → o ≡ forward_jump_with_note missed
      → 0 < missed
      → s.sequence ≡ r.sequence + 1 + missed
      → s.previous_digest ≢ some r.digest
      → Follows s digest r o

module _ (s : CatalogSnapshot) (digest : Text) (r : RetainedCatalogState) (o : ChainOutcome) where
  compare-cases :
      s.sequence < 2 ^ 64
      → compare_chain s digest (some r) ≡ ok o
      → ((o ≡ no_op_refresh) × (s.sequence ≡ r.sequence) × (digest ≡ r.digest))
        ⊎ ((o ≡ successor) × (s.sequence ≡ r.sequence + 1) × (s.previous_digest ≡ some r.digest))
        ⊎ ((o ≡ forward_jump_with_note (s.sequence - r.sequence - 1))
            × (r.sequence + 1 < s.sequence)
            × (s.previous_digest ≢ some r.digest))
  unfolding compare_chain
  compare-cases b h = ground (arith, is_text_iff s.previous_digest r.digest, =ᵗ_iff digest r.digest)

  Follows-of_compare :
      s.sequence < 2 ^ 64 → compare_chain s digest (some r) ≡ ok o → Follows s digest r o
  Follows-of_compare b h = elim (compare-cases b h) [
    | inl (e, n, d) ↦ same e n d
    | inr (inl (e, n, d)) ↦ next e n d
    | inr (inr (e, n, d)) ↦ ahead (s.sequence - r.sequence - 1) e (omega arith) (omega arith) d
  ]

  compare-of_Follows :
      s.sequence < 2 ^ 64 → Follows s digest r o → compare_chain s digest (some r) ≡ ok o
  unfolding compare_chain
  compare-of_Follows b (same e n d) = ground (arith, =ᵗ_iff digest r.digest)
  compare-of_Follows b (next e n d) = ground (arith, is_text_iff s.previous_digest r.digest)
  compare-of_Follows b (ahead missed e p n d) =
      ground (arith, is_text_iff s.previous_digest r.digest)

-- Against retained state, a snapshot is accepted with an outcome exactly when it stands so to the
-- retained one; the sequence is a `u64`.
pub compare_chain_iff :
    (s : CatalogSnapshot) (digest : Text) (r : RetainedCatalogState) (o : ChainOutcome)
    → s.sequence < 2 ^ 64
    → (compare_chain s digest (some r) ≡ ok o) ↔ Follows s digest r o
compare_chain_iff s digest r o b =
    (Follows-of_compare s digest r o b, compare-of_Follows s digest r o b)

-- Each refusal of the comparison, and when it is made: a rollback, the two forks, and a jump that
-- claims to follow directly.
pub compare_chain_errors :
    (s : CatalogSnapshot) (digest : Text) (r : RetainedCatalogState)
    → s.sequence < 2 ^ 64
    → ((compare_chain s digest (some r) ≡ err (snapshot_invalid (rollback s.sequence r.sequence)))
        ↔ (s.sequence < r.sequence))
      × ((compare_chain s digest (some r) ≡ err (snapshot_invalid (fork_same_sequence s.sequence)))
          ↔ ((s.sequence ≡ r.sequence) × (digest ≢ r.digest)))
      × ((compare_chain s digest (some r) ≡ err (snapshot_invalid fork_previous_digest))
          ↔ ((s.sequence ≡ r.sequence + 1) × (s.previous_digest ≢ some r.digest)))
      × ((compare_chain s digest (some r)
            ≡ err (snapshot_invalid (inconsistent_jump s.sequence r.sequence)))
          ↔ ((r.sequence + 1 < s.sequence) × (s.previous_digest ≡ some r.digest)))
unfolding compare_chain
compare_chain_errors s digest r b =
    ground (arith, is_text_iff s.previous_digest r.digest, =ᵗ_iff digest r.digest)

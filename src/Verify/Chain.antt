-- ===== src/Verify/Chain.antt =====
-- src/verify.rs, `verify_snapshot`: the structural chain rules, and the comparison of a snapshot
-- with the state that was retained when its catalog was last accepted.
pub mod Cases
use onym_discovery.Prelude.{
  ℕ, ◌+◌, ◌-◌, ◌%◌, ◌^◌, Text, Bool, true, false, Option, none, some, ltb, ◌==◌, ◌=ᵗ◌,
  if◌then◌else◌,
}
use onym_discovery.Error.{
  Error, snapshot_invalid, shown, different_provider, different_catalog, sequence_zero,
  first_with_previous, successor_without_previous, rollback, fork_same_sequence,
  fork_previous_digest, inconsistent_jump, policy_mismatch,
}
use onym_discovery.Result.{Result, ok, err, ◌>>=◌, ◌>>◌, fail_if, guard, map_err, ok_or}
use onym_discovery.Types.Records.{CatalogSnapshot}
use onym_discovery.Types.Fields.{validate_digest}
use onym_discovery.Types.Uri.{is_some}
use onym_discovery.Verify.State.{
  RetainedCatalogState, ChainOutcome, first_acceptance, successor, no_op_refresh,
  forward_jump_with_note, retained_policy,
}

-- `map_err(|e| invalid(e.to_string()))`
abbrev pub invalid : Error → Error
invalid e = snapshot_invalid (shown e)

-- `a.as_deref() == Some(b)`
abbrev pub is_text : Option Text → Text → Bool
is_text none b = false
is_text (some a) b = a =ᵗ b

-- A `u64` wraps.
abbrev pub u64 : ℕ → ℕ
u64 n = n % 2 ^ 64

-- Retained state of another provider or another catalog is a caller's error.
unfoldable pub check_retained : CatalogSnapshot → Option RetainedCatalogState → Result (Unit {0})
check_retained s none = ok tt
check_retained s (some r) = do
  guard (r.provider_id =ᵗ s.provider_id)
      (snapshot_invalid (different_provider r.provider_id s.provider_id))
  guard (r.catalog_id =ᵗ s.catalog_id)
      (snapshot_invalid (different_catalog r.catalog_id s.catalog_id))

-- Whether the snapshot cites the retained previous policy, where the declared one is `policy`.
unfoldable pub check_policy : CatalogSnapshot → Text → Option RetainedCatalogState → Result Bool
check_policy s policy retained = do
  map_err invalid (validate_digest s.policy_digest)
  if s.policy_digest =ᵗ policy
      then ok false
      else if is_text (retained_policy retained) s.policy_digest
      then ok true
      else err (snapshot_invalid policy_mismatch)

unfoldable pub check_sequence : CatalogSnapshot → Result (Unit {0})
check_sequence s = do
  fail_if (s.sequence == 0) (snapshot_invalid sequence_zero)
  if s.sequence == 1
      then fail_if (is_some s.previous_digest) (snapshot_invalid first_with_previous)
      else (do
        previous ← ok_or s.previous_digest (snapshot_invalid successor_without_previous)
        map_err invalid (validate_digest previous))

-- The four cases. `digest` is that of the snapshot's bytes.
unfoldable pub compare_chain :
    CatalogSnapshot → Text → Option RetainedCatalogState → Result ChainOutcome
compare_chain s digest none = ok first_acceptance
compare_chain s digest (some r) =
    if ltb s.sequence r.sequence
    then err (snapshot_invalid (rollback s.sequence r.sequence))
    else if s.sequence == r.sequence
    then (if digest =ᵗ r.digest
        then ok no_op_refresh
        else err (snapshot_invalid (fork_same_sequence s.sequence)))
    else if s.sequence == u64 (r.sequence + 1)
    then (if is_text s.previous_digest r.digest
        then ok successor
        else err (snapshot_invalid fork_previous_digest))
    else if is_text s.previous_digest r.digest
    then err (snapshot_invalid (inconsistent_jump s.sequence r.sequence))
    else ok (forward_jump_with_note (s.sequence - r.sequence - 1))

-- ===== src/Verify/Snapshot/Total.antt =====
-- src/verify.rs, `verify_snapshot`: no sum of an instant and a duration leaves the range of dates,
-- because the checks come in the order in which they do.
use onym_discovery.Prelude.{
  ℕ, ◌+◌, ◌*◌, ◌-◌, ◌≢◌, ◌≤◌, Text, Bytes, Option, none, some, arith, leb, ltb, Option-cases, inl,
  inr,
}
use onym_discovery.Error.{
  snapshot_invalid, snapshot_expired, expires_before_generated, window_too_long, future_dated,
  snapshot_expired_at, unsigned,
}
use onym_discovery.Result.{
  panic, ◌>>=◌, ◌>>◌, Returns, Returns-bind, Returns-map_err, Returns-ok_or, Returns-ok, map_err,
  fail_if, ok_or,
}
use onym_discovery.Crates.{Crates, add_duration}
use onym_discovery.Crates.Laws.{HexLaws}
use onym_discovery.Types.Constants.{max_expiry_window, clock_skew}
use onym_discovery.Types.Records.{CatalogSnapshot}
use onym_discovery.Types.Fields.{parse_timestamp, parse_operator_key}
use onym_discovery.Canonical.{signing_bytes}
use onym_discovery.Types.Fields.Total.{
  parse_operator_key-Returns, parse_timestamp-Returns, signing_bytes-Returns, verify-Returns,
  validate_digest-Returns,
}
use onym_discovery.Verify.State.{VerifiedManifest, RetainedCatalogState, sha256_digest}
use onym_discovery.Verify.Chain.{
  invalid, check_retained, check_policy, check_sequence, compare_chain,
}
use onym_discovery.Verify.Entry.{decode_entries}
use onym_discovery.Verify.Entry.Lossy.{decode_entries-Returns}
use onym_discovery.Verify.Snapshot.{
  check_header, authenticate, check_freshness, find_descriptor, accept, verify_snapshot,
  read_snapshot,
}

check_policy-Returns :
    (s : CatalogSnapshot) (policy : Text) (r : Option RetainedCatalogState)
    → Returns (check_policy s policy r)
unfolding check_policy
check_policy-Returns s policy r = ground (arith, validate_digest-Returns s.policy_digest)

check_sequence-Returns : (s : CatalogSnapshot) → Returns (check_sequence s)
unfolding check_sequence
check_sequence-Returns s = elim (Option-cases s.previous_digest) [
  | inl e ↦ ground arith
  | inr (d, e) ↦ ground (arith, validate_digest-Returns d)
]

compare_chain-Returns :
    (s : CatalogSnapshot) (digest : Text) (r : Option RetainedCatalogState)
    → Returns (compare_chain s digest r)
unfolding compare_chain
compare_chain-Returns s digest none = λ p. cc
compare_chain-Returns s digest (some r) = ground arith

check_retained-Returns :
    (s : CatalogSnapshot) (r : Option RetainedCatalogState) → Returns (check_retained s r)
unfolding check_retained
check_retained-Returns s none = λ p. cc
check_retained-Returns s (some r) = ground arith

check_header-Returns : (s : CatalogSnapshot) (m : VerifiedManifest) → Returns (check_header s m)
unfolding check_header
check_header-Returns s m = ground arith

find_descriptor-Returns :
    (s : CatalogSnapshot) (m : VerifiedManifest) → Returns (find_descriptor s m)
unfolding find_descriptor
find_descriptor-Returns s m = Returns-ok_or _ _

module _ (crates : Crates) where
  -- Room for the two sums: ninety days and twice the allowance.
  abbrev pub HasRoom : ℕ → Type 0
  HasRoom now = now + (max_expiry_window + 2 * clock_skew) ≤ crates.last_instant

  -- The checks between the two sums bound the second.
  sums-Returns :
      (s : CatalogSnapshot) (now g e : ℕ)
      → HasRoom now
      → Returns (do
        fail_if (leb e g) (snapshot_invalid expires_before_generated)
        fail_if (ltb max_expiry_window (e - g)) (snapshot_invalid window_too_long)
        latest ← add_duration crates now clock_skew
        fail_if (ltb latest g) (snapshot_invalid (future_dated s.generated_at))
        last_valid ← add_duration crates e clock_skew
        fail_if (ltb last_valid now) (snapshot_expired (snapshot_expired_at s.expires_at)))
  unfolding add_duration
  sums-Returns s now g e room = ground arith

  check_freshness-Returns :
      (s : CatalogSnapshot) (now : ℕ) → HasRoom now → Returns (check_freshness crates s now)
  unfolding check_freshness
  check_freshness-Returns s now room =
      Returns-bind (map_err invalid (parse_timestamp crates s.generated_at)) _
        (Returns-map_err invalid _ (parse_timestamp-Returns crates s.generated_at))
        λ g _.
          Returns-bind (map_err invalid (parse_timestamp crates s.expires_at)) _
            (Returns-map_err invalid _ (parse_timestamp-Returns crates s.expires_at))
            λ e _. sums-Returns s now g e room

  read_snapshot-Returns : (raw : Bytes) → Returns (read_snapshot crates raw)
  unfolding read_snapshot
  read_snapshot-Returns raw = ground arith

  module _ (laws : HexLaws crates) where
    authenticate-Returns :
        (raw : Bytes) (s : CatalogSnapshot) (m : VerifiedManifest)
        → Returns (authenticate crates raw s m)
    unfolding authenticate
    authenticate-Returns raw s m =
        Returns-bind (map_err invalid (parse_operator_key crates m.manifest.operator)) _
          (Returns-map_err invalid _ (parse_operator_key-Returns crates laws m.manifest.operator))
          λ k _.
            Returns-bind (ok_or s.signature (snapshot_invalid unsigned)) _ (Returns-ok_or _ _)
              λ sig _.
                Returns-bind (map_err invalid (signing_bytes crates raw)) _
                  (Returns-map_err invalid _ (signing_bytes-Returns crates raw))
                  λ bytes _. Returns-map_err invalid _ (verify-Returns crates k bytes sig)

    accept-Returns :
        (raw : Bytes) (s : CatalogSnapshot) (m : VerifiedManifest)
        (retained : Option RetainedCatalogState)
        → Returns (accept crates raw s m retained)
    unfolding accept
    accept-Returns raw s m retained =
        Returns-bind (find_descriptor s m) _ (find_descriptor-Returns s m) λ c _.
          Returns-bind (check_retained s retained) _ (check_retained-Returns s retained) λ _ _.
            Returns-bind (check_policy s c.policy retained) _
              (check_policy-Returns s c.policy retained)
              λ t _. Returns-bind (check_sequence s) _ (check_sequence-Returns s) λ _ _.
                Returns-bind (compare_chain s (sha256_digest crates raw) retained) _
                  (compare_chain-Returns s _ retained)
                  λ o _.
                    Returns-bind (decode_entries crates s.entries) _
                      (decode_entries-Returns crates laws s.entries) λ d _. Returns-ok _

-- `verify_snapshot` does not panic on any bytes, manifest and retained state, if `now` lies at
-- least ninety days and twenty minutes before the last instant that can be represented.
pub verify_snapshot-Returns :
    (crates : Crates)
    → HexLaws crates
    → (raw : Bytes) (m : VerifiedManifest) (retained : Option RetainedCatalogState) (now : ℕ)
    → HasRoom crates now
    → verify_snapshot crates raw m retained now ≢ panic
unfolding verify_snapshot
verify_snapshot-Returns crates laws raw m retained now room =
    Returns-bind (read_snapshot crates raw) _ (read_snapshot-Returns crates raw) λ s _.
      Returns-bind (check_header s m) _ (check_header-Returns s m) λ _ _.
        Returns-bind (authenticate crates raw s m) _ (authenticate-Returns crates laws raw s m)
          λ _ _.
            Returns-bind (check_freshness crates s now) _
              (check_freshness-Returns crates s now room)
              λ _ _. accept-Returns crates laws raw s m retained

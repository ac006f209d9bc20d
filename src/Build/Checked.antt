-- ===== src/Build/Checked.antt =====
-- src/build.rs: the builder's rules for an entry against the verifier's.
use onym_discovery.Prelude.{◌≡◌, ◌↔◌, refl, inl, inr, ℕ, false, Option, none, some, arith, is_empty}
use onym_discovery.Result.{ok, Result-cases}
use onym_discovery.Crates.{Crates}
use onym_discovery.Types.Records.{CatalogEntry, EntryStatus}
use onym_discovery.Types.Fields.{parse_timestamp}
use onym_discovery.Verify.Entry.{check_entry, check_reviewed, check_status}
use onym_discovery.Build.{check_listed, check_listed_status}

-- What the verifier asks of an entry beyond the builder's rules.
pub record IsDated (crates : Crates) (entry : CatalogEntry) : Type 0 where
  pub seated : is_empty entry.seat_type ≡ false
  pub listed_at : ℕ
  pub listed : parse_timestamp crates entry.listed_at ≡ ok listed_at
  pub reviewed : check_reviewed crates entry.reviewed_at ≡ ok tt

module _ (crates : Crates) where
  check_status-eq : (s : Option EntryStatus) → check_listed_status crates s ≡ check_status crates s
  unfolding check_listed_status check_status
  check_status-eq none = refl
  check_status-eq (some s) = ground arith

-- The verifier accepts an entry exactly when the builder's rules hold of it and it also names a
-- seat type and bears a readable listing time and, if any, review time.
pub check_entry_iff :
    (crates : Crates) (entry : CatalogEntry)
    → (check_entry crates entry ≡ ok entry)
      ↔ ((check_listed crates entry ≡ ok tt) × IsDated crates entry)
unfolding check_entry check_listed
check_entry_iff crates entry = (
  λ h. elim (Result-cases (parse_timestamp crates entry.listed_at)) [
    | inl (t, e) ↦ (
      ground (arith, e, h, check_status-eq crates entry.status),
      record {
        seated = ground (arith, h);
        listed_at = t;
        listed = e;
        reviewed = ground (arith, e, h);
      },
    )
    | inr (inl e) ↦ absurd (ground (arith, e, h))
    | inr (inr (w, e)) ↦ absurd (ground (arith, e, h))
  ],
  λ (rules, dated).
      ground
        (arith, dated.seated, dated.listed, dated.reviewed, check_status-eq crates entry.status),
)

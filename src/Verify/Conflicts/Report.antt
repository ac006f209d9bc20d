-- ===== src/Verify/Conflicts/Report.antt =====
-- src/verify.rs: what `cross_catalog_equivocation` answers.
use onym_discovery.Prelude.{
  ◌≡◌, ◌↔◌, refl, sym, subst, Text, false, not, List, [], ◌∷◌, map, All, any, contains, arith, ◌=ᵗ◌,
  =ᵗ_iff, =ᵗ_refl, Bool-cases, inl, inr,
}
use onym_discovery.Verify.State.{VerifiedSnapshot}
use onym_discovery.Verify.Conflicts.{
  no_conflict, spans_providers, report, conflicting_digests, cross_catalog_equivocation,
}
use onym_discovery.Verify.Conflicts.Exact.{Bound, concat, conflicting_digests_iff}

-- All snapshots are of the provider `p`.
abbrev pub IsOf : Text → VerifiedSnapshot → Type 0
IsOf p s = s.snapshot.provider_id ≡ p

-- One digest is that of all entries that name `k`.
abbrev pub Agree : List VerifiedSnapshot → Text → Type 0
Agree ss k = (d : Text) × All (Bound k d) (concat (map (λ s. s.entries) ss))

any_other_iff :
    (p : Text) (ss : List VerifiedSnapshot)
    → (any (λ t. not (t.snapshot.provider_id =ᵗ p)) ss ≡ false) ↔ All (IsOf p) ss
any_other_iff p [] = ground arith
any_other_iff p (s ∷ ss) = ground (arith, =ᵗ_iff s.snapshot.provider_id p, any_other_iff p ss)

spans_providers_iff :
    (ss : List VerifiedSnapshot) → (spans_providers ss ≡ false) ↔ ((p : Text) × All (IsOf p) ss)
unfolding spans_providers
spans_providers_iff [] = (λ _. ([], tt), λ _. refl)
spans_providers_iff (s ∷ ss) = (
  λ h. (s.snapshot.provider_id, (refl, (any_other_iff s.snapshot.provider_id ss).0 h)),
  λ (p, (e, a)).
      (any_other_iff s.snapshot.provider_id ss).1 (subst (λ q. All (IsOf q) ss) (sym e) a),
)

report_iff : (ks : List Text) → (report ks ≡ no_conflict) ↔ ((k : Text) → contains ks k ≡ false)
unfolding report
report_iff [] = (λ _ _. refl, λ _. refl)
report_iff (k ∷ ks) = (λ h. cc, λ h. absurd (ground (arith, h k, =ᵗ_refl k)))

-- The answer is that there is no conflict exactly when all snapshots are of one provider and, for
-- each component, one digest is that of all their entries that name it.
pub cross_catalog_equivocation_iff :
    (ss : List VerifiedSnapshot)
    → (cross_catalog_equivocation ss ≡ no_conflict)
      ↔ (((p : Text) × All (IsOf p) ss) × ((k : Text) → Agree ss k))
unfolding cross_catalog_equivocation
cross_catalog_equivocation_iff ss =
    let sets = map (λ s. s.entries) ss in
    let (spans, one) = spans_providers_iff ss in
    let (clear, none_listed) = report_iff (conflicting_digests sets) in
    elim (Bool-cases (spans_providers ss)) [
      | inl e ↦ rw e ((λ h. cc), λ (p, _). absurd (ground (arith, e, one p)))
      | inr e ↦ rw e (
        (λ h. (spans e, λ k. (conflicting_digests_iff sets k).1.0 (clear h k))),
        λ (_, a). none_listed (λ k. (conflicting_digests_iff sets k).1.1 (a k)),
      )
    ]

-- ===== src/Canonical/Exact.antt =====
-- src/canonical.rs: what `reject_duplicate_keys` lets pass, exactly.
use onym_discovery.Prelude.{
  ◌≡◌, ◌↔◌, refl, Text, Bytes, Option, none, some, List, [], ◌∷◌, NewIn, NewIn-Distinct, Distinct,
  Absent, contains, contains_iff, arith,
}
use onym_discovery.Error.{Error, malformed, duplicate_key}
use onym_discovery.Result.{Result, ok, err, panic, ◌>>=◌, fail_if}
use onym_discovery.Json.{
  Stream, visit_unit, visit_bool, visit_number, visit_str, visit_seq, visit_map, broken, Elements,
  end_seq, next_element, broken_seq, Entries, end_map, next_entry, broken_map,
}
use onym_discovery.Crates.{Crates}
use onym_discovery.Canonical.{any_value, any_elements, any_entries, at_end, reject_duplicate_keys}

abbrev pub entry_keys : Entries → List Text
entry_keys end_map = []
entry_keys (next_entry k s es) = k ∷ entry_keys es
entry_keys (broken_map e) = []

-- The text is JSON throughout, and no object in it has a key twice, at any depth.
unfoldable mutual
  pub IsUnique : Stream → Type 0
  IsUnique (visit_seq els) = AreUnique els
  IsUnique (visit_map es) = Distinct (entry_keys es) × HaveUnique es
  IsUnique (broken e) = ⊥
  IsUnique _ = Unit

  pub AreUnique : Elements → Type 0
  AreUnique end_seq = Unit
  AreUnique (next_element s els) = IsUnique s × AreUnique els
  AreUnique (broken_seq e) = ⊥

  pub HaveUnique : Entries → Type 0
  HaveUnique end_map = Unit
  HaveUnique (next_entry k s es) = IsUnique s × HaveUnique es
  HaveUnique (broken_map e) = ⊥

-- Two checks in a row.
both_iff :
    {P Q : Type 0} (a b : Result (Unit {0}))
    → (a ≡ ok tt) ↔ P
    → (b ≡ ok tt) ↔ Q
    → ((a >>= λ _. b) ≡ ok tt) ↔ (P × Q)
both_iff panic b f g = (λ h. cc, λ (p, _). absurd (ground (arith, f.1 p)))
both_iff (err e) b f g = (λ h. cc, λ (p, _). absurd (ground (arith, f.1 p)))
both_iff (ok u) b f g = (λ h. (f.0 refl, g.0 h), λ (_, q). g.1 q)

fresh_iff :
    (seen : List Text) (k : Text) (e : Error)
    → (fail_if (contains seen k) e ≡ ok tt) ↔ Absent k seen
fresh_iff seen k e = ground (arith, contains_iff seen k)

mutual
  unfolding any_value IsUnique

  any_value_iff : (s : Stream) → (any_value s ≡ ok tt) ↔ IsUnique s
  any_value_iff visit_unit = (λ _. tt, λ _. refl)
  any_value_iff (visit_bool b) = (λ _. tt, λ _. refl)
  any_value_iff (visit_number n) = (λ _. tt, λ _. refl)
  any_value_iff (visit_str s) = (λ _. tt, λ _. refl)
  any_value_iff (visit_seq els) = any_elements_iff els
  any_value_iff (visit_map es) =
      let (to, from) = any_entries_iff [] es in
      let (split, join) = NewIn-Distinct (entry_keys es) in
      (λ h. (split (to h).0, (to h).1), λ (d, u). from (join d, u))
  any_value_iff (broken e) = (λ h. cc, λ u. absurd u)

  any_elements_iff : (els : Elements) → (any_elements els ≡ ok tt) ↔ AreUnique els
  any_elements_iff end_seq = (λ _. tt, λ _. refl)
  any_elements_iff (next_element s els) =
      both_iff (any_value s) (any_elements els) (any_value_iff s) (any_elements_iff els)
  any_elements_iff (broken_seq e) = (λ h. cc, λ u. absurd u)

  any_entries_iff :
      (seen : List Text) (es : Entries)
      → (any_entries seen es ≡ ok tt) ↔ (NewIn seen (entry_keys es) × HaveUnique es)
  any_entries_iff seen end_map = (λ _. (tt, tt), λ _. refl)
  any_entries_iff seen (next_entry k s es) =
      let (to, from) =
        both_iff (fail_if (contains seen k) (malformed (duplicate_key k)))
          (any_value s >>= λ _. any_entries (k ∷ seen) es)
          (fresh_iff seen k (malformed (duplicate_key k)))
          (both_iff (any_value s) (any_entries (k ∷ seen) es) (any_value_iff s)
            (any_entries_iff (k ∷ seen) es)) in
      (
        λ h. let (a, (u, (n, us))) = to h in ((a, n), (u, us)),
        λ ((a, n), (u, us)). from (a, (u, (n, us))),
      )
  any_entries_iff seen (broken_map e) = (λ h. cc, λ (_, u). absurd u)

at_end_iff : (o : Option Text) → (at_end o ≡ ok tt) ↔ (o ≡ none)
at_end_iff none = (λ _. refl, λ _. refl)
at_end_iff (some e) = ground arith

-- `reject_duplicate_keys` lets bytes pass exactly when they are one JSON text with nothing behind it, in
-- which no object, at any depth, has a key twice.
pub reject_duplicate_keys_iff :
    (crates : Crates) (raw : Bytes)
    → (reject_duplicate_keys crates raw ≡ ok tt)
      ↔ (IsUnique (crates.read raw).0 × ((crates.read raw).1 ≡ none))
unfolding reject_duplicate_keys
reject_duplicate_keys_iff crates raw =
    both_iff (any_value (crates.read raw).0) (at_end (crates.read raw).1)
      (any_value_iff (crates.read raw).0) (at_end_iff (crates.read raw).1)

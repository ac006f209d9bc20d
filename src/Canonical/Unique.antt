-- ===== src/Canonical/Unique.antt =====
-- src/canonical.rs: the duplicate-key visitor lets a tree with ordered keys pass.
use onym_discovery.Prelude.{
  ℕ, zero, suc, Text, List, [], ◌∷◌, ◌≡◌, refl, NewIn, NewIn-Distinct, contains_iff,
}
use onym_discovery.Result.{ok}
use onym_discovery.Json.{
  Value, null, bool, number, string, array, object, Values, nil, cons, Members, end, member, events,
  events_values, events_members,
}
use onym_discovery.Json.Regular.{keys, Sorted-Distinct, Regular, RegularValues, RegularMembers}
use onym_discovery.Canonical.{any_value, any_elements, any_entries}

mutual
  unfolding any_value events Regular

  pub any_value-events : (d : ℕ) (v : Value) → Regular d v → any_value (events v) ≡ ok tt
  any_value-events d null r = refl
  any_value-events d (bool b) r = refl
  any_value-events d (number n) r = refl
  any_value-events d (string s) r = refl
  any_value-events (suc d) (array vs) r = any_elements-events d vs r
  any_value-events zero (array vs) r = absurd r
  any_value-events (suc d) (object ms) (s, r) =
      any_entries-events d [] ms ((NewIn-Distinct (keys ms)).1 (Sorted-Distinct (keys ms) s)) r
  any_value-events zero (object ms) r = absurd r

  any_elements-events :
      (d : ℕ) (vs : Values) → RegularValues d vs → any_elements (events_values vs) ≡ ok tt
  any_elements-events d nil r = refl
  any_elements-events d (cons v vs) (r, rs) =
      rw (any_value-events d v r) (any_elements-events d vs rs)

  any_entries-events :
      (d : ℕ) (seen : List Text) (ms : Members)
      → NewIn seen (keys ms)
      → RegularMembers d ms
      → any_entries seen (events_members ms) ≡ ok tt
  any_entries-events d seen end n r = refl
  any_entries-events d seen (member k v ms) (a, n) (r, rs) =
      rw ((contains_iff seen k).1 a)
        (rw (any_value-events d v r) (any_entries-events d (k ∷ seen) ms n rs))

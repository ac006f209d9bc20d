-- ===== src/Json/Deeper.antt =====
-- The trees of src/build.rs, one level deeper.
use onym_discovery.Prelude.{ℕ, zero, suc}
use onym_discovery.Json.{
  Value, null, bool, number, string, array, object, Values, nil, cons, Members, end, member,
}
use onym_discovery.Json.Regular.{Regular, RegularValues, RegularMembers}

-- A tree that is not too deep may stand one deeper.
mutual
  unfolding Regular

  pub Regular-suc : (d : ℕ) (v : Value) → Regular d v → Regular (suc d) v
  Regular-suc d null r = tt
  Regular-suc d (bool b) r = tt
  Regular-suc d (number n) r = r
  Regular-suc d (string s) r = tt
  Regular-suc zero (array vs) r = absurd r
  Regular-suc (suc d) (array vs) r = RegularValues-suc d vs r
  Regular-suc zero (object ms) r = absurd r
  Regular-suc (suc d) (object ms) (sorted, r) = (sorted, RegularMembers-suc d ms r)

  pub RegularValues-suc : (d : ℕ) (vs : Values) → RegularValues d vs → RegularValues (suc d) vs
  RegularValues-suc d nil r = tt
  RegularValues-suc d (cons v vs) (r, rs) = (Regular-suc d v r, RegularValues-suc d vs rs)

  RegularMembers-suc : (d : ℕ) (ms : Members) → RegularMembers d ms → RegularMembers (suc d) ms
  RegularMembers-suc d end r = tt
  RegularMembers-suc d (member k v ms) (r, rs) = (Regular-suc d v r, RegularMembers-suc d ms rs)

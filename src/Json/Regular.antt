-- ===== src/Json/Regular.antt =====
-- The JSON trees that survive printing and parsing: no floats, a bounded depth, and the keys of each
-- object in ascending order, as src/canonical.rs relies on.
use Prim.Native.Nat.{Ordering}
use onym_discovery.Prelude.{
  ℕ, zero, suc, Text, some, List, [], ◌∷◌, ◌≡◌, ◌≢◌, refl, subst, sym, All, Bool-cases, ◌⊎◌, inl,
  inr, Before, Before-trans, Before-of_gt, compare_text, compare_self, eq_of_compare, ◌=ᵗ◌, =ᵗ_iff,
  =ᵗ_refl, Absent, Distinct, arith,
}
use onym_discovery.Json.{
  Number, float, Value, number, array, object, Values, nil, cons, Members, end, member, remove,
  insert, get,
}

abbrev pub keys : Members → List Text
keys end = []
keys (member k v ms) = k ∷ keys ms

abbrev pub Sorted : List Text → Type 0
Sorted [] = Unit
Sorted (k ∷ ks) = All (Before k) ks × Sorted ks

abbrev IsWhole : Number → Type 0
IsWhole (float n) = ⊥
IsWhole _ = Unit

-- `depth` is the number of arrays and objects that may be open.
unfoldable mutual
  pub Regular : ℕ → Value → Type 0
  Regular depth (number n) = IsWhole n
  Regular (suc depth) (array vs) = RegularValues depth vs
  Regular zero (array vs) = ⊥
  Regular (suc depth) (object ms) = Sorted (keys ms) × RegularMembers depth ms
  Regular zero (object ms) = ⊥
  Regular depth _ = Unit

  pub RegularValues : ℕ → Values → Type 0
  RegularValues depth nil = Unit
  RegularValues depth (cons v vs) = Regular depth v × RegularValues depth vs

  pub RegularMembers : ℕ → Members → Type 0
  RegularMembers depth end = Unit
  RegularMembers depth (member k v ms) = Regular depth v × RegularMembers depth ms

pub Ordering-cases : (o : Ordering) → (o ≡ Ordering.lt) ⊎ ((o ≡ Ordering.eq) ⊎ (o ≡ Ordering.gt))
Ordering-cases Ordering.lt = inl refl
Ordering-cases Ordering.eq = inr (inl refl)
Ordering-cases Ordering.gt = inr (inr refl)

Before-irrefl : (k s : Text) → Before k s → s ≢ k
Before-irrefl k s h e = absurd (ground (arith, e, h, compare_self k))

Absent-of_Before : (k : Text) (ks : List Text) → All (Before k) ks → Absent k ks
Absent-of_Before k [] h = tt
Absent-of_Before k (j ∷ ks) (h, hs) = (Before-irrefl k j h, Absent-of_Before k ks hs)

pub Sorted-Distinct : (ks : List Text) → Sorted ks → Distinct ks
Sorted-Distinct [] h = tt
Sorted-Distinct (k ∷ ks) (h, hs) = (Absent-of_Before k ks h, Sorted-Distinct ks hs)

-- Taking a member out.
module _ (P : Text → Type 0) where
  All-remove : (k : Text) (ms : Members) → All P (keys ms) → All P (keys (remove k ms))
  unfolding remove
  All-remove k end h = h
  All-remove k (member j v ms) h = elim (Bool-cases (j =ᵗ k)) [
    | inl e ↦ rw e h.1
    | inr e ↦ rw e (h.0, All-remove k ms h.1)
  ]

Sorted-remove : (k : Text) (ms : Members) → Sorted (keys ms) → Sorted (keys (remove k ms))
unfolding remove
Sorted-remove k end h = h
Sorted-remove k (member j v ms) h = elim (Bool-cases (j =ᵗ k)) [
  | inl e ↦ rw e h.1
  | inr e ↦ rw e (All-remove (Before j) k ms h.0, Sorted-remove k ms h.1)
]

RegularMembers-remove :
    (d : ℕ) (k : Text) (ms : Members) → RegularMembers d ms → RegularMembers d (remove k ms)
unfolding remove Regular
RegularMembers-remove d k end h = h
RegularMembers-remove d k (member j v ms) h = elim (Bool-cases (j =ᵗ k)) [
  | inl e ↦ rw e h.1
  | inr e ↦ rw e (h.0, RegularMembers-remove d k ms h.1)
]

-- What is taken out of sorted members is gone.
pub Absent-remove : (k : Text) (ms : Members) → Sorted (keys ms) → Absent k (keys (remove k ms))
unfolding remove
Absent-remove k end h = tt
Absent-remove k (member j v ms) h = elim (Bool-cases (j =ᵗ k)) [
  | inl e ↦
      rw e (subst (λ x. Absent x (keys ms)) ((=ᵗ_iff j k).0 e) (Absent-of_Before j (keys ms) h.0))
  | inr e ↦ rw e ((λ q. absurd (ground (arith, e, (=ᵗ_iff j k).1 q))), Absent-remove k ms h.1)
]

-- Putting a member in, by the three cases.
module _ (k j : Text) (w v : Value) (ms : Members) where
  pub insert-lt :
      compare_text k j ≡ Ordering.lt → insert k w (member j v ms) ≡ member k w (member j v ms)
  unfolding insert
  insert-lt e = ground (arith, e)

  pub insert-eq : compare_text k j ≡ Ordering.eq → insert k w (member j v ms) ≡ member k w ms
  unfolding insert
  insert-eq e = ground (arith, e)

  pub insert-gt :
      compare_text k j ≡ Ordering.gt → insert k w (member j v ms) ≡ member j v (insert k w ms)
  unfolding insert
  insert-gt e = ground (arith, e)

module _ (P : Text → Type 0) where
  All-insert :
      (k : Text) (w : Value) (ms : Members) → P k → All P (keys ms) → All P (keys (insert k w ms))
  unfolding insert
  All-insert k w end p h = (p, tt)
  All-insert k w (member j v ms) p h = elim (Ordering-cases (compare_text k j)) [
    | inl e ↦ subst (λ x. All P (keys x)) (sym (insert-lt k j w v ms e)) (p, h)
    | inr (inl e) ↦ subst (λ x. All P (keys x)) (sym (insert-eq k j w v ms e)) (p, h.1)
    | inr (inr e) ↦
        subst (λ x. All P (keys x)) (sym (insert-gt k j w v ms e)) (h.0, All-insert k w ms p h.1)
  ]

Before-extend : (k j : Text) (ks : List Text) → Before k j → All (Before j) ks → All (Before k) ks
Before-extend k j [] b h = tt
Before-extend k j (i ∷ ks) b (h, hs) = (Before-trans k j i b h, Before-extend k j ks b hs)

abbrev pub IsObject : ℕ → Members → Type 0
IsObject d ms = Sorted (keys ms) × RegularMembers d ms

pub IsObject-insert :
    (d : ℕ) (k : Text) (w : Value) (ms : Members)
    → Regular d w
    → IsObject d ms
    → IsObject d (insert k w ms)
unfolding insert Regular
IsObject-insert d k w end r h = ((tt, tt), (r, tt))
IsObject-insert d k w (member j v ms) r ((a, s), (rv, rs)) =
    elim (Ordering-cases (compare_text k j)) [
      | inl e ↦
          subst (IsObject d) (sym (insert-lt k j w v ms e))
            (((e, Before-extend k j (keys ms) e a), (a, s)), (r, (rv, rs)))
      | inr (inl e) ↦
          subst (IsObject d) (sym (insert-eq k j w v ms e))
            ((subst (λ x. All (Before x) (keys ms)) (sym (eq_of_compare k j e)) a, s), (r, rs))
      | inr (inr e) ↦
          let (s', r') = IsObject-insert d k w ms r (s, rs) in
          subst (IsObject d) (sym (insert-gt k j w v ms e))
            ((All-insert (Before j) k w ms (Before-of_gt k j e) a, s'), (rv, r'))
    ]

pub IsObject-remove : (d : ℕ) (k : Text) (ms : Members) → IsObject d ms → IsObject d (remove k ms)
IsObject-remove d k ms (s, r) = (Sorted-remove k ms s, RegularMembers-remove d k ms r)

-- A member that was not there is put in, found, and taken out again.
pub remove-insert :
    (k : Text) (w : Value) (ms : Members) → Absent k (keys ms) → remove k (insert k w ms) ≡ ms
unfolding remove insert
remove-insert k w end a = rw (=ᵗ_refl k) refl
remove-insert k w (member j v ms) (n, a) = elim (Ordering-cases (compare_text k j)) [
  | inl e ↦ rw (insert-lt k j w v ms e) (rw (=ᵗ_refl k) refl)
  | inr (inl e) ↦ absurd (n (sym (eq_of_compare k j e)))
  | inr (inr e) ↦
      rw (insert-gt k j w v ms e) (ground (arith, n, =ᵗ_iff j k, remove-insert k w ms a))
]

pub get-insert :
    (k : Text) (w : Value) (ms : Members) → Absent k (keys ms) → get k (insert k w ms) ≡ some w
unfolding get insert
get-insert k w end a = rw (=ᵗ_refl k) refl
get-insert k w (member j v ms) (n, a) = elim (Ordering-cases (compare_text k j)) [
  | inl e ↦ rw (insert-lt k j w v ms e) (rw (=ᵗ_refl k) refl)
  | inr (inl e) ↦ absurd (n (sym (eq_of_compare k j e)))
  | inr (inr e) ↦ rw (insert-gt k j w v ms e) (ground (arith, n, =ᵗ_iff j k, get-insert k w ms a))
]

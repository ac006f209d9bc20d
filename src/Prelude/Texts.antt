-- ===== src/Prelude/Texts.antt =====
-- Texts and byte strings: lists of bytes, as Rust's `str::len`, `bytes()` and `Ord` see them.
use Prim.Native.Nat.{ℕ, compare, Ordering}
use Prim.Native.Char.{code}
use Prim.Native.String.{String}
use mathlib.Core.Path.{◌≡◌, refl}
use mathlib.Core.Logic.{◌↔◌}
use mathlib.Core.Bool.{Bool, true, false, ◌&&◌}
use mathlib.Core.Option.{Option, none, some}
use mathlib.Core.List.{List, [], ◌∷◌, ◌++◌}
use native.Mathlib.Omega.{arith}
use onym_discovery.Prelude.Tests.{◌==◌, if◌then◌else◌}

abbrev pub Bytes : Type 0
Bytes = List ℕ

abbrev pub Text : Type 0
Text = List ℕ

-- The bytes of a literal, which the program's sources write in ASCII.
unfoldable pub text : String → Text
text String.[] = []
text (String.◌∷◌ c s) = code c ∷ text s

-- `a == b` on `&str` and `&[u8]`
infix 50 ◌=ᵗ◌
unfoldable pub ◌=ᵗ◌ : Text → Text → Bool
[] =ᵗ [] = true
(a ∷ s) =ᵗ (b ∷ t) = a == b && s =ᵗ t
_ =ᵗ _ = false

pub =ᵗ_iff : (s t : Text) → ((s =ᵗ t) ≡ true) ↔ (s ≡ t)
unfolding ◌=ᵗ◌
=ᵗ_iff [] [] = (λ _. refl, λ _. refl)
=ᵗ_iff [] (b ∷ t) = ground arith
=ᵗ_iff (a ∷ s) [] = ground arith
=ᵗ_iff (a ∷ s) (b ∷ t) = ground (arith, =ᵗ_iff s t)

pub =ᵗ_refl : (s : Text) → (s =ᵗ s) ≡ true
=ᵗ_refl s = (=ᵗ_iff s s).1 refl

-- The order of `str`: byte by byte.
unfoldable pub compare_text : Text → Text → Ordering
compare_text [] [] = Ordering.eq
compare_text [] (b ∷ t) = Ordering.lt
compare_text (a ∷ s) [] = Ordering.gt
compare_text (a ∷ s) (b ∷ t) = elim (compare a b) [
  | Ordering.lt ↦ Ordering.lt
  | Ordering.eq ↦ compare_text s t
  | Ordering.gt ↦ Ordering.gt
]

-- `s` stands before `t`.
abbrev pub Before : Text → Text → Type 0
Before s t = compare_text s t ≡ Ordering.lt

pub eq_of_compare : (s t : Text) → compare_text s t ≡ Ordering.eq → s ≡ t
unfolding compare_text
eq_of_compare [] [] h = refl
eq_of_compare [] (b ∷ t) h = cc
eq_of_compare (a ∷ s) [] h = cc
eq_of_compare (a ∷ s) (b ∷ t) h = ground (arith, eq_of_compare s t)

pub compare_self : (s : Text) → compare_text s s ≡ Ordering.eq
unfolding compare_text
compare_self [] = refl
compare_self (a ∷ s) = ground (arith, compare_self s)

pub Before-of_gt : (s t : Text) → compare_text s t ≡ Ordering.gt → Before t s
unfolding compare_text
Before-of_gt [] [] h = cc
Before-of_gt [] (b ∷ t) h = cc
Before-of_gt (a ∷ s) [] h = refl
Before-of_gt (a ∷ s) (b ∷ t) h = ground (arith, Before-of_gt s t)

pub Before-trans : (s t u : Text) → Before s t → Before t u → Before s u
unfolding compare_text
Before-trans [] [] u h k = cc
Before-trans [] (b ∷ t) [] h k = cc
Before-trans [] (b ∷ t) (c ∷ u) h k = refl
Before-trans (a ∷ s) [] u h k = cc
Before-trans (a ∷ s) (b ∷ t) [] h k = cc
Before-trans (a ∷ s) (b ∷ t) (c ∷ u) h k = ground (arith, Before-trans s t u)

-- `value.strip_prefix(prefix)`
unfoldable pub strip_prefix : Text → Text → Option Text
strip_prefix [] s = some s
strip_prefix (p ∷ ps) [] = none
strip_prefix (p ∷ ps) (c ∷ s) = if p == c then strip_prefix ps s else none

pub strip_prefix_iff : (p s t : Text) → (strip_prefix p s ≡ some t) ↔ (s ≡ p ++ t)
unfolding strip_prefix
strip_prefix_iff [] s t = ground arith
strip_prefix_iff (p ∷ ps) [] t = ground arith
strip_prefix_iff (p ∷ ps) (c ∷ s) t = ground (arith, strip_prefix_iff ps s t)

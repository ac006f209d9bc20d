-- ===== src/Prelude/Seen.antt =====
-- Lists of texts without repetition, and the loop over a set of what was seen.
use mathlib.Core.Path.{◌≡◌, sym}
use mathlib.Core.Logic.{◌≢◌, ◌↔◌}
use mathlib.Core.Bool.{Bool, false}
use mathlib.Core.List.{List, [], ◌∷◌}
use native.Mathlib.Omega.{arith}
use onym_discovery.Prelude.Lists.{any, All}
use onym_discovery.Prelude.Texts.{Text, ◌=ᵗ◌, =ᵗ_iff}

-- `set.contains(k)`
abbrev pub contains : List Text → Text → Bool
contains seen k = any (λ s. s =ᵗ k) seen

abbrev pub Absent : Text → List Text → Type 0
Absent k ks = All (λ s. s ≢ k) ks

-- Each text once.
abbrev pub Distinct : List Text → Type 0
Distinct [] = Unit
Distinct (k ∷ ks) = Absent k ks × Distinct ks

-- Each text is new when the loop meets it.
abbrev pub NewIn : List Text → List Text → Type 0
NewIn seen [] = Unit
NewIn seen (k ∷ ks) = Absent k seen × NewIn (k ∷ seen) ks

pub contains_iff : (seen : List Text) (k : Text) → (contains seen k ≡ false) ↔ Absent k seen
contains_iff [] k = ground arith
contains_iff (s ∷ seen) k = ground (arith, =ᵗ_iff s k, contains_iff seen k)

abbrev AllAbsent : List Text → List Text → Type 0
AllAbsent seen ks = All (λ k. Absent k seen) ks

AllAbsent-cons :
    (s : Text) (seen ks : List Text) → AllAbsent (s ∷ seen) ks ↔ (Absent s ks × AllAbsent seen ks)
AllAbsent-cons s seen [] = ((λ _. (tt, tt)), (λ _. tt))
AllAbsent-cons s seen (k ∷ ks) =
    let (to, from) = AllAbsent-cons s seen ks in
    (
      λ ((n, a), r). let (p, q) = to r in (((λ e. n (sym e)), p), (a, q)),
      λ ((n, p), (a, q)). (((λ e. n (sym e)), a), from (p, q)),
    )

pub NewIn-iff : (seen ks : List Text) → NewIn seen ks ↔ (Distinct ks × AllAbsent seen ks)
NewIn-iff seen [] = ((λ _. (tt, tt)), (λ _. tt))
NewIn-iff seen (k ∷ ks) =
    let (to, from) = NewIn-iff (k ∷ seen) ks in
    let (split, join) = AllAbsent-cons k seen ks in
    (
      λ (a, n). let (d, r) = to n in let (p, q) = split r in ((p, d), (a, q)),
      λ ((p, d), (a, q)). (a, from (d, join (p, q))),
    )

AllAbsent-nil : (ks : List Text) → AllAbsent [] ks
AllAbsent-nil [] = tt
AllAbsent-nil (k ∷ ks) = (tt, AllAbsent-nil ks)

-- Begun with nothing seen, the loop meets each text once exactly when none repeats.
pub NewIn-Distinct : (ks : List Text) → NewIn [] ks ↔ Distinct ks
NewIn-Distinct ks =
    let (to, from) = NewIn-iff [] ks in (λ n. (to n).0, λ d. from (d, AllAbsent-nil ks))

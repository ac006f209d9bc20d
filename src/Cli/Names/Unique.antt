-- ===== src/Cli/Names/Unique.antt =====
-- src/main.rs: a retention sibling's name tells the publication that it belongs to.
use onym_discovery.Prelude.{
  ℕ, zero, suc, ◌+◌, ◌*◌, ◌/◌, ◌%◌, ◌-◌, ◌^◌, ◌<◌, ◌≡◌, refl, sym, ap, ◌∙◌, Text, Bool, true, [],
  ◌∷◌, ◌++◌, all, all-append, ltb, not, ◌==◌, Bool-cases, inl, inr, arith, text,
}
use mathlib.Core.List.{append_cancel_right}
use onym_discovery.Types.Fields.{is_digit}
use onym_discovery.Cli.Names.{digits, decimal, max_digits, json_ending, retention_name}

digit_in_range : (n : ℕ) → n < 10 → is_digit (b'0' + n) ≡ true
digit_in_range n h = ground arith

pub digits-all : (f n : ℕ) → all is_digit (digits f n) ≡ true
unfolding digits
digits-all zero n = refl
digits-all (suc f) n = elim (Bool-cases (ltb n 10)) [
  | inl e ↦ rw e (rw (digit_in_range n (ground arith)) refl)
  | inr e ↦ rw e (
      rw (all-append is_digit (digits f (n / 10)) ((b'0' + n % 10) ∷ []))
        (rw (digits-all f (n / 10)) (rw (digit_in_range (n % 10) (omega arith)) refl)))
]

-- The number that decimal digits write.
read_on : ℕ → Text → ℕ
read_on n [] = n
read_on n (b ∷ s) = read_on (10 * n + (b - b'0')) s

read_on-append : (n : ℕ) (s t : Text) → read_on n (s ++ t) ≡ read_on (read_on n s) t
unfolding read_on
read_on-append n [] t = refl
read_on-append n (b ∷ s) t = read_on-append (10 * n + (b - b'0')) s t

abbrev power : ℕ → ℕ
power zero = 1
power (suc f) = 10 * power f

read_on-digits : (f n : ℕ) → n < power f → read_on 0 (digits f n) ≡ n
unfolding digits read_on
read_on-digits zero n h = omega arith
read_on-digits (suc f) n h = elim (Bool-cases (ltb n 10)) [
  | inl e ↦ rw e (omega arith)
  | inr e ↦ rw e (
      read_on-append 0 (digits f (n / 10)) ((b'0' + n % 10) ∷ [])
      ∙ omega (arith, read_on-digits f (n / 10) (omega arith)))
]

pub decimal-injective : (m n : ℕ) → m < 2 ^ 64 → n < 2 ^ 64 → decimal m ≡ decimal n → m ≡ n
unfolding decimal
decimal-injective m n hm hn e =
    sym (read_on-digits max_digits m (omega arith))
    ∙ ap (read_on 0) e
    ∙ read_on-digits max_digits n (omega arith)

abbrev no_dash : Text → Bool
no_dash s = all (λ b. not (b == b'-')) s

no_dash-digits : (s : Text) → all is_digit s ≡ true → no_dash s ≡ true
no_dash-digits [] h = refl
no_dash-digits (b ∷ s) h = ground (arith, no_dash-digits s)

-- The last dash of a text parts it in one way only.
last_dash :
    (s s' t t' : Text)
    → no_dash t ≡ true
    → no_dash t' ≡ true
    → s ++ (b'-' ∷ t) ≡ s' ++ (b'-' ∷ t')
    → (s ≡ s') × (t ≡ t')
last_dash [] [] t t' h h' e = ground (arith, e)
last_dash [] (b ∷ s') t t' h h' e =
    absurd (ground (arith, e, h, all-append (λ b. not (b == b'-')) s' (b'-' ∷ t')))
last_dash (b ∷ s) [] t t' h h' e =
    absurd (ground (arith, e, h', all-append (λ b. not (b == b'-')) s (b'-' ∷ t)))
last_dash (b ∷ s) (b' ∷ s') t t' h h' e = ground (arith, e, last_dash s s' t t' h h')

no_dash-tail : (n : ℕ) → no_dash (decimal n ++ json_ending) ≡ true
unfolding decimal text
no_dash-tail n =
    all-append (λ b. not (b == b'-')) (digits max_digits n) json_ending
    ∙ rw (no_dash-digits (digits max_digits n) (digits-all max_digits n)) refl

-- Two publications have the same retention sibling only if they are of one catalog and of one sequence,
-- which is a `u64`.
pub retention_name-injective :
    (c c' : Text) (n n' : ℕ)
    → n < 2 ^ 64
    → n' < 2 ^ 64
    → retention_name c n ≡ retention_name c' n'
    → (c ≡ c') × (n ≡ n')
unfolding retention_name
retention_name-injective c c' n n' h h' e =
    let (same, tails) =
      last_dash c c' (decimal n ++ json_ending) (decimal n' ++ json_ending) (no_dash-tail n)
        (no_dash-tail n') e in
    (
      same,
      decimal-injective n n' h h' (append_cancel_right (decimal n) (decimal n') json_ending tails),
    )

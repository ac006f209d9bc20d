-- ===== src/Keys/Seed.antt =====
-- src/keys.rs: the seed's hexadecimal text, with or without the line end that a file has, is the seed.
use onym_discovery.Prelude.{
  ℕ, ◌≡◌, refl, ap, ◌∙◌, Text, Bytes, true, [], ◌∷◌, ◌++◌, all, all-append, all-reverse, length,
  ltb, arith,
}
use mathlib.Core.List.{reverse, reverse-append, reverse-reverse}
use onym_discovery.Result.{ok}
use onym_discovery.Crates.{Crates}
use onym_discovery.Crates.Laws.{TextLaws, IsBytes}
use onym_discovery.Types.Fields.{is_lower_hex}
use onym_discovery.Keys.Trim.{trim, trim_start, trim_end, space1, space2, space3}
use onym_discovery.Keys.{signing_key_from_seed_hex}

-- A text that begins with a digit has nothing to trim there.
trim_start-hex : (a : ℕ) (s : Text) → is_lower_hex a ≡ true → trim_start (a ∷ s) ≡ a ∷ s
unfolding trim_start space1 space2 space3 is_lower_hex
trim_start-hex a [] h = ground arith
trim_start-hex a (b ∷ []) h = ground arith
trim_start-hex a (b ∷ c ∷ s) h = ground arith

trim_end-hex :
    (a : ℕ) (s : Text)
    → is_lower_hex a ≡ true
    → all is_lower_hex s ≡ true
    → trim_end (a ∷ s) ≡ a ∷ s
unfolding trim_end space1 space2 space3 is_lower_hex
trim_end-hex a [] h k = ground arith
trim_end-hex a (b ∷ []) h k = ground arith
trim_end-hex a (b ∷ c ∷ s) h k = ground arith

trim_end-newline : (s : Text) → trim_end (10 ∷ s) ≡ trim_end s
unfolding trim_end space1 space2 space3
trim_end-newline [] = refl
trim_end-newline (a ∷ []) = refl
trim_end-newline (a ∷ b ∷ s) = refl

trim_end-digits : (s : Text) → all is_lower_hex s ≡ true → trim_end s ≡ s
unfolding trim_end
trim_end-digits [] h = refl
trim_end-digits (a ∷ s) h = trim_end-hex a s (ground (arith, h)) (ground (arith, h))

back-and-forth : (s : Text) → all is_lower_hex s ≡ true → reverse (trim_end (reverse s)) ≡ s
back-and-forth s h =
    ap reverse (trim_end-digits (reverse s) (all-reverse is_lower_hex s ∙ h)) ∙ reverse-reverse s

trim-digits : (s : Text) → all is_lower_hex s ≡ true → trim s ≡ s
unfolding trim trim_start
trim-digits [] h = refl
trim-digits (a ∷ s) h =
    ap (λ t. reverse (trim_end (reverse t))) (trim_start-hex a s (ground (arith, h)))
    ∙ back-and-forth (a ∷ s) h

trim-newline :
    (a : ℕ) (s : Text) → all is_lower_hex (a ∷ s) ≡ true → trim ((a ∷ s) ++ 10 ∷ []) ≡ a ∷ s
unfolding trim
trim-newline a s h =
    ap (λ t. reverse (trim_end (reverse t))) (trim_start-hex a (s ++ 10 ∷ []) (ground (arith, h)))
    ∙ ap (λ t. reverse (trim_end t)) (reverse-append (a ∷ s) (10 ∷ []))
    ∙ ap reverse (trim_end-newline (reverse (a ∷ s)))
    ∙ back-and-forth (a ∷ s) h

-- A seed: 32 bytes.
pub record IsSeed (seed : Bytes) : Type 0 where
  pub bytes : IsBytes seed
  pub sized : length seed ≡ 32

module _ (crates : Crates) (laws : TextLaws crates) (seed : Bytes) (s : IsSeed seed) where
  open crates use {hex_encode}

  from_trimmed :
      (text : Text) → trim text ≡ hex_encode seed → signing_key_from_seed_hex crates text ≡ ok seed
  unfolding signing_key_from_seed_hex
  from_trimmed text e = ground (arith, e, laws.decode-encode seed s.bytes, s.sized)

  pub signing_key-hex_encode : signing_key_from_seed_hex crates (hex_encode seed) ≡ ok seed
  signing_key-hex_encode =
      from_trimmed (hex_encode seed)
        (trim-digits (hex_encode seed) (laws.encode_digits seed s.bytes))

  newline_of : (h : Text) → all is_lower_hex h ≡ true → length h ≡ 64 → trim (h ++ 10 ∷ []) ≡ h
  newline_of [] d l = absurd (omega (arith, l))
  newline_of (a ∷ h) d l = trim-newline a h d

  -- The text of a seed file.
  pub signing_key-seed_file :
      signing_key_from_seed_hex crates (hex_encode seed ++ 10 ∷ []) ≡ ok seed
  signing_key-seed_file = from_trimmed (hex_encode seed ++ 10 ∷ []) (
      newline_of (hex_encode seed) (laws.encode_digits seed s.bytes)
        (omega (arith, laws.encode_length seed s.bytes, s.sized)))

  digit-ascii : (h : Text) → all is_lower_hex h ≡ true → all (λ b. ltb b 128) h ≡ true
  unfolding is_lower_hex
  digit-ascii [] d = refl
  digit-ascii (a ∷ h) d = ground (arith, digit-ascii h)

  pub seed_file-utf8 : crates.is_utf8 (hex_encode seed ++ 10 ∷ []) ≡ true
  seed_file-utf8 = laws.ascii (hex_encode seed ++ 10 ∷ []) (
      all-append (λ b. ltb b 128) (hex_encode seed) (10 ∷ [])
      ∙ rw (digit-ascii (hex_encode seed) (laws.encode_digits seed s.bytes)) refl)

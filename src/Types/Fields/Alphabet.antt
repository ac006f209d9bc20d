-- ===== src/Types/Fields/Alphabet.antt =====
-- src/types.rs: the bytes that ids, seat types and digests are written in, as ranges of ASCII.
use onym_discovery.Prelude.{ℕ, ◌≡◌, ◌≤◌, ◌⊎◌, ◌↔◌, Text, Bool, true, all, All, [], ◌∷◌, refl, arith}
use onym_discovery.Types.Fields.{is_id_byte, is_seat_byte, is_lower_hex}

-- A decimal digit.
abbrev pub IsDigit : ℕ → Type 0
IsDigit b = (b'0' ≤ b) × (b ≤ b'9')

-- A lowercase letter.
abbrev pub IsLower : ℕ → Type 0
IsLower b = (b'a' ≤ b) × (b ≤ b'z')

-- A lowercase letter, a digit or a dash.
abbrev pub IsIdByte : ℕ → Type 0
IsIdByte b = IsLower b ⊎ IsDigit b ⊎ (b ≡ b'-')

-- A lowercase letter, a digit, a full stop or a dash.
abbrev pub IsSeatByte : ℕ → Type 0
IsSeatByte b = IsLower b ⊎ IsDigit b ⊎ (b ≡ b'.') ⊎ (b ≡ b'-')

-- A digit or a letter from `a` to `f`.
abbrev pub IsHexDigit : ℕ → Type 0
IsHexDigit b = IsDigit b ⊎ ((b'a' ≤ b) × (b ≤ b'f'))

is_id_byte_iff : (b : ℕ) → (is_id_byte b ≡ true) ↔ IsIdByte b
unfolding is_id_byte
is_id_byte_iff b = ground arith

is_seat_byte_iff : (b : ℕ) → (is_seat_byte b ≡ true) ↔ IsSeatByte b
unfolding is_seat_byte
is_seat_byte_iff b = ground arith

is_lower_hex_iff : (b : ℕ) → (is_lower_hex b ≡ true) ↔ IsHexDigit b
unfolding is_lower_hex
is_lower_hex_iff b = ground arith

module _ (p : ℕ → Bool) (P : ℕ → Type 0) (same : (b : ℕ) → (p b ≡ true) ↔ P b) where
  All-of_all : (t : Text) → all p t ≡ true → All P t
  All-of_all [] h = tt
  All-of_all (b ∷ t) h = ((same b).0 (ground (arith, h)), All-of_all t (ground (arith, h)))

  all-of_All : (t : Text) → All P t → all p t ≡ true
  all-of_All [] h = refl
  all-of_All (b ∷ t) (h, k) = ground (arith, (same b).1 h, all-of_All t k)

pub all-is_id_byte : (t : Text) → (all is_id_byte t ≡ true) ↔ All IsIdByte t
all-is_id_byte t = (
  All-of_all is_id_byte IsIdByte is_id_byte_iff t,
  all-of_All is_id_byte IsIdByte is_id_byte_iff t,
)

pub all-is_seat_byte : (t : Text) → (all is_seat_byte t ≡ true) ↔ All IsSeatByte t
all-is_seat_byte t = (
  All-of_all is_seat_byte IsSeatByte is_seat_byte_iff t,
  all-of_All is_seat_byte IsSeatByte is_seat_byte_iff t,
)

pub all-is_lower_hex : (t : Text) → (all is_lower_hex t ≡ true) ↔ All IsHexDigit t
all-is_lower_hex t = (
  All-of_all is_lower_hex IsHexDigit is_lower_hex_iff t,
  all-of_All is_lower_hex IsHexDigit is_lower_hex_iff t,
)

-- ===== src/Keys/Trim.antt =====
-- `str::trim`, which src/keys.rs calls: `White_Space` at either end, over the bytes of UTF-8.
use onym_discovery.Prelude.{ℕ, Text, Bool, true, false, ◌&&◌, ◌||◌, [], ◌∷◌, leb, ◌==◌}
use mathlib.Core.List.{reverse}

-- The characters of one, two and three bytes.
unfoldable pub space1 : ℕ → Bool
space1 a = (leb 9 a && leb a 13) || a == 32

unfoldable pub space2 : ℕ → ℕ → Bool
space2 a b = a == 0xc2 && (b == 0x85 || b == 0xa0)

unfoldable pub space3 : ℕ → ℕ → ℕ → Bool
space3 a b c =
    (a == 0xe1 && b == 0x9a && c == 0x80)
    || (a == 0xe2
        && ((b == 0x80 && (leb 0x80 c && leb c 0x8a || c == 0xa8 || c == 0xa9 || c == 0xaf))
            || (b == 0x81 && c == 0x9f)))
    || (a == 0xe3 && b == 0x80 && c == 0x80)

unfoldable pub trim_start : Text → Text
trim_start [] = []
trim_start (a ∷ []) = elim (space1 a) [ true ↦ [] | false ↦ a ∷ [] ]
trim_start (a ∷ b ∷ []) = elim (space1 a) [
  | true ↦ trim_start (b ∷ [])
  | false ↦ elim (space2 a b) [ true ↦ [] | false ↦ a ∷ b ∷ [] ]
]
trim_start (a ∷ b ∷ c ∷ s) = elim (space1 a) [
  | true ↦ trim_start (b ∷ c ∷ s)
  | false ↦ elim (space2 a b) [
    | true ↦ trim_start (c ∷ s)
    | false ↦ elim (space3 a b c) [ true ↦ trim_start s | false ↦ a ∷ b ∷ c ∷ s ]
  ]
]

-- The same from the other end, the bytes reversed.
unfoldable pub trim_end : Text → Text
trim_end [] = []
trim_end (a ∷ []) = elim (space1 a) [ true ↦ [] | false ↦ a ∷ [] ]
trim_end (b ∷ a ∷ []) = elim (space1 b) [
  | true ↦ trim_end (a ∷ [])
  | false ↦ elim (space2 a b) [ true ↦ [] | false ↦ b ∷ a ∷ [] ]
]
trim_end (c ∷ b ∷ a ∷ s) = elim (space1 c) [
  | true ↦ trim_end (b ∷ a ∷ s)
  | false ↦ elim (space2 b c) [
    | true ↦ trim_end (a ∷ s)
    | false ↦ elim (space3 a b c) [ true ↦ trim_end s | false ↦ c ∷ b ∷ a ∷ s ]
  ]
]

unfoldable pub trim : Text → Text
unfolding trim_start trim_end space1 space2 space3
trim s = reverse (trim_end (reverse (trim_start s)))

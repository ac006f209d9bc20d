-- ===== src/Cli/Names.antt =====
-- src/main.rs: the names of the files that are written, `sig_path` and the retention sibling.
pub mod Apart
pub mod Unique
use onym_discovery.Prelude.{
  ℕ, zero, suc, ◌+◌, ◌/◌, ◌%◌, Text, text, Option, none, some, [], ◌∷◌, ◌++◌, ltb, if◌then◌else◌,
}
use onym_discovery.Cli.Host.{Host}

-- A `u64` in decimal, of at most 20 digits.
abbrev pub max_digits : ℕ
max_digits = 20

unfoldable pub digits : ℕ → ℕ → Text
digits zero n = []
digits (suc fuel) n =
    let more = digits fuel (n / 10) in
    if ltb n 10 then (b'0' + n) ∷ [] else more ++ ((b'0' + n % 10) ∷ [])

unfoldable pub decimal : ℕ → Text
unfolding digits
decimal n = digits max_digits n

abbrev pub json_ending : Text
unfolding text
json_ending = text ".json"

abbrev pub sig_ending : Text
unfolding text
sig_ending = text ".sig"

-- `format!("{}-{}.json", catalog_id, sequence)`
unfoldable pub retention_name : Text → ℕ → Text
unfolding decimal
retention_name catalog_id sequence = catalog_id ++ (b'-' ∷ (decimal sequence ++ json_ending))

abbrev pub unwrap_or : Text → Option Text → Text
unwrap_or d none = d
unwrap_or d (some s) = s

module _ (H : Host) where
  unfoldable pub retention_path : Text → Text → ℕ → Text
  unfolding retention_name
  retention_path out catalog_id sequence = H.with_file_name out (retention_name catalog_id sequence)

  unfoldable pub sig_path : Text → Text
  sig_path out = H.with_file_name out (unwrap_or [] (H.file_name out) ++ sig_ending)

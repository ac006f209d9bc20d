-- ===== src/Cli/Host.antt =====
-- What src/main.rs and src/keys.rs take from the operating system: files, paths, the clock and
-- randomness. The state is unknown.
use onym_discovery.Prelude.{
  ℕ, ◌<◌, ◌≡◌, ◌≢◌, Text, Bytes, Bool, true, not, Option, none, some, all, length, ◌==◌,
}

-- `std::fs::read`: the error that the program tells apart is `NotFound`.
pub data Reading : Type 0 where
  contents : Bytes → Reading
  not_found : Text → Reading
  unreadable : Text → Reading

pub record Host : Type 1 where
  pub State : Type 0
  pub read : State → Text → Reading
  -- `std::fs::write`, `std::fs::set_permissions`: with the error, if any. A write that fails may have
  -- changed the file.
  pub write : State → Text → Bytes → State × Option Text
  pub set_mode : State → Text → ℕ → State × Option Text
  -- `Path::exists`
  pub exists : State → Text → Bool
  -- `Path::file_name`, `Path::with_file_name`, `Path::parent`, `Path::join`
  pub file_name : Text → Option Text
  pub with_file_name : Text → Text → Text
  pub parent : Text → Option Text
  pub join : Text → Text → Text
  -- `OffsetDateTime::now_utc`, and what `OsRng::fill_bytes` puts into so many bytes.
  pub now_utc : ℕ
  pub fill_bytes : ℕ → Bytes

-- The name of a file in its directory: no slash in it, and neither `.` nor `..`.
abbrev pub IsName : Text → Type 0
IsName name = (2 < length name) × (all (λ b. not (b == b'/')) name ≡ true)

-- Files that no link joins: a write changes the file at its path alone, and what was written is read.
pub record IsFileSystem (H : Host) : Type 0 where
  pub read-write :
      (s s' : H.State) (p : Text) (b : Bytes)
      → H.write s p b ≡ (s', none)
      → H.read s' p ≡ contents b
  pub read-write_other :
      (s : H.State) (p q : Text) (b : Bytes) → p ≢ q → H.read (H.write s p b).0 q ≡ H.read s q
  pub read-set_mode :
      (s : H.State) (p q : Text) (mode : ℕ) → H.read (H.set_mode s p mode).0 q ≡ H.read s q
  pub exists-read :
      (s : H.State) (p : Text) (b : Bytes) → H.read s p ≡ contents b → H.exists s p ≡ true
  pub file_name-with_file_name :
      (p name : Text) → IsName name → H.file_name (H.with_file_name p name) ≡ some name

-- ===== src/Cli/Output.antt =====
-- src/main.rs: what the program prints, and how it fails. A line is kept as data, with what the
-- source puts into it.
use onym_discovery.Prelude.{ℕ, Text}
use onym_discovery.Error.{Error}

pub data Line : Type 0 where
  operator_line fingerprint_line : Text → Line
  seed_line : (path : Text) → Line
  wrote : (path : Text) (bytes : ℕ) (digest : Text) → Line
  wrote_snapshot : (path : Text) (sequence bytes : ℕ) (digest : Text) → Line
  retention_line : (path : Text) → Line
  manifest_line : (provider operator : Text) (catalogs skipped audience_skipped : ℕ) → Line
  digest_line : Text → Line
  detached_agrees : Line
  snapshot_line : (catalog : Text) (sequence entries skipped : ℕ) (digest : Text) → Line
  no_op_note : Line
  forward_jump_note : (missed : ℕ) → Line
  transition_note transition_bound_note : Line
  destination_line : (digest : Text) → Line

-- `anyhow::Error`: an error of the library, of the system or of serde, under its contexts; or `bail!`.
pub data Failure : Type 0 where
  library : Error → Failure
  os json : Text → Failure
  in_path in_parse : (path : Text) → Failure → Failure
  key_exists : (path : Text) → Failure
  sibling_differs : (path : Text) → Failure

-- ===== src/Cli/Files.antt =====
-- src/main.rs: `moment`, `load_key` and `write_immutable`.
pub mod Steps
use onym_discovery.Prelude.{ℕ, text, Text, Bytes, Option, none, some, ◌=ᵗ◌, if◌then◌else◌}
use onym_discovery.Crates.{Crates}
use onym_discovery.Types.Fields.{parse_timestamp}
use onym_discovery.Keys.{signing_key_from_seed_hex}
use onym_discovery.Cli.Host.{Host, Reading, contents, not_found, unreadable}
use onym_discovery.Cli.Output.{Failure, os, in_path, sibling_differs}
use onym_discovery.Cli.Run.{
  Outcome, World, Run, ◌>>=◌, ◌>>◌, return, fail, lift, read_path, write_path,
}

abbrev pub not_utf8 : Text
unfolding text
not_utf8 = text "stream did not contain valid UTF-8"

module _ (crates : Crates) (H : Host) where
  unfoldable pub moment : Option Text → Run H ℕ
  moment none = return H.now_utc
  moment (some value) = lift (parse_timestamp crates value)

  -- `read_to_string` fails on bytes that are not UTF-8.
  unfoldable pub as_text : Text → Bytes → Run H Text
  as_text path bytes =
      if crates.is_utf8 bytes then return bytes else fail (in_path path (os not_utf8))

  unfoldable pub load_key : Text → Run H Bytes
  load_key seed_path = do
    bytes ← read_path seed_path
    seed_hex ← as_text seed_path bytes
    lift (signing_key_from_seed_hex crates seed_hex)

module _ (H : Host) where
  unfoldable pub write_unless : Text → Bytes → Reading → Run H (Unit {0})
  write_unless path bytes (contents existing) =
      if existing =ᵗ bytes then return tt else fail (sibling_differs path)
  write_unless path bytes (not_found e) = write_path (in_path path) path bytes
  write_unless path bytes (unreadable e) = fail (in_path path (os e))

  unfoldable pub write_immutable : Text → Bytes → Run H (Unit {0})
  unfolding write_unless
  write_immutable path bytes w = write_unless path bytes (H.read w.disk path) w

-- ===== src/Example/Verifying.antt =====
-- The theorem on the commands that verify, at a snapshot behind another.
use onym_discovery.Prelude.{ℕ, ◌≢◌, text, none, some, arith}
use onym_discovery.Verify.Snapshot.Total.{HasRoom}
use onym_discovery.Cli.Run.{panicked}
use onym_discovery.Cli.Files.Steps.{IsMoment, at_now}
use onym_discovery.Cli.Main.{verify, VerifyCommand, verify_snapshot_file, main}
use onym_discovery.Cli.Main.Unpanicked.{judged_at, verify-Calm}
use onym_discovery.Example.Crates.{crates, hex_laws}
use onym_discovery.Example.Host.{flat}
use onym_discovery.Example.Program.{program}
use onym_discovery.Example.Disk.{system, with, files}

abbrev command : VerifyCommand
command =
    verify_snapshot_file (text "second") (text "manifest") none (some (text "first")) none none

HasRoom-now : HasRoom crates system.now_utc
unfolding program flat
HasRoom-now = omega arith

HasRoom-none : (now : ℕ) → IsMoment crates system none now → HasRoom crates now
HasRoom-none _ at_now = HasRoom-now

HasRoom-judged_at : (now : ℕ) → IsMoment crates system (judged_at command) now → HasRoom crates now
unfolding judged_at
HasRoom-judged_at now is = HasRoom-none now is

verify-Calm_example : (main crates system (verify command) (with files)).0 ≢ panicked
verify-Calm_example = verify-Calm crates system hex_laws command (with files) HasRoom-judged_at

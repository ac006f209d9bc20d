-- ===== src/Example/Commands.antt =====
-- The theorems on the commands, on a small disk.
use onym_discovery.Prelude.{ℕ, ◌≡◌, refl, text, none, some, ◌++◌, arith, Absent}
use onym_discovery.Keys.{generate_seed}
use onym_discovery.Keys.Seed.{IsSeed}
use onym_discovery.Cli.Host.{contents}
use onym_discovery.Cli.Run.{World, returned}
use onym_discovery.Cli.Names.Unique.{retention_name-injective}
use onym_discovery.Cli.Main.{
  Command, keygen, fingerprint_of, build, verify, verify_snapshot_file, verify_destination_file,
  main,
}
use onym_discovery.Cli.Main.Untouched.{main_reads}
use onym_discovery.Cli.Main.Held.{main_holds, targets}
use onym_discovery.Cli.Main.Keygen.{keygen-fingerprint, IsFresh, identity}
use onym_discovery.Cli.Main.Verified.{IsAccepted, verify_snapshot_file-IsAccepted}
use onym_discovery.Cli.Main.Built.{
  IsBuiltFrom, IsLatestName, IsLatestName-no_dash, build-IsBuiltFrom,
}
use onym_discovery.Example.Crates.{crates, text_laws}
use onym_discovery.Example.Host.{host-IsFileSystem, flat, Files}
use onym_discovery.Example.Disk.{system, with, files}
use onym_discovery.Example.Program.{commands}
use onym_discovery.Example.Documents.{today, snapshot_bytes₁}

-- Where the run leaves the world.
abbrev pub behind : Command → Files → World system
behind command files = (main crates system command (with files)).1

abbrev destination : Command
destination = verify (verify_destination_file (text "r.json") (text "sha256:"))

main_reads_example :
    ((main crates system destination (with files)).1.disk ≡ (with files).disk)
    × ((main crates system (fingerprint_of (text "seed")) (with files)).1.disk ≡ (with files).disk)
main_reads_example =
    main_reads crates system (with files) (verify_destination_file (text "r.json") (text "sha256:"))
      (text "seed")

abbrev accepts : Command
accepts =
    verify
      (verify_snapshot_file (text "second") (text "manifest") none (some (text "first")) none none)

verifies : main crates system accepts (with files) ≡ (returned tt, behind accepts files)
unfolding files flat
verifies = refl

verify_snapshot_file-IsAccepted_example :
    IsAccepted crates system
      (with files).disk
      (text "second")
      (text "manifest")
      none
      (some (text "first"))
      none
      none
verify_snapshot_file-IsAccepted_example =
    verify_snapshot_file-IsAccepted crates system (with files) (behind accepts files)
      (text "second") (text "manifest") none (some (text "first")) none none verifies

abbrev pub generates : Command
generates = keygen (text "new")

is_seed : IsSeed (generate_seed system.fill_bytes)
unfolding flat commands
is_seed = record { bytes = refl; sized = refl }

fresh : main crates system generates (with files) ≡ (returned tt, behind generates files)
unfolding files flat
fresh = refl

keygen-fingerprint_example :
    IsFresh crates system
      (text "new")
      (generate_seed system.fill_bytes)
      (with files)
      (behind generates files)
    × (main crates system (fingerprint_of (text "new")) (behind generates files) ≡ (
      returned tt,
      record (behind generates files) {
        printed =
            (behind generates files).printed
            ++ identity crates system (generate_seed system.fill_bytes);
      },
    ))
keygen-fingerprint_example =
    keygen-fingerprint crates system (host-IsFileSystem today) text_laws is_seed (text "new")
      (with files) (behind generates files) fresh

abbrev pub builds : Command
builds = build (text "seed") (text "config") (some (text "first")) none (text "all.json")

spared : Absent (text "first") (targets system builds)
unfolding commands flat
spared = ((λ e. absurd (ground (arith, e))), ((λ e. absurd (ground (arith, e))), tt))

stands : system.read (with files).disk (text "first") ≡ contents snapshot_bytes₁
unfolding flat files
stands = refl

main_holds_example :
    system.read (main crates system builds (with files)).1.disk (text "first")
    ≡ contents snapshot_bytes₁
main_holds_example =
    main_holds crates system (host-IsFileSystem today) builds (with files) (text "first")
      snapshot_bytes₁ spared stands

built : main crates system builds (with files) ≡ (returned tt, behind builds files)
unfolding files flat
built = refl

pub latest : IsLatestName (text "all.json")
unfolding text
latest = IsLatestName-no_dash (text "all.json") (omega arith, refl) refl

pub named : system.file_name (text "all.json") ≡ some (text "all.json")
unfolding flat
named = refl

build-IsBuiltFrom_example :
    IsBuiltFrom crates system
      (host-IsFileSystem today)
      (with files).disk
      (behind builds files).disk
      (text "seed")
      (text "config")
      (some (text "first"))
      none
      (text "all.json")
build-IsBuiltFrom_example =
    build-IsBuiltFrom crates system (host-IsFileSystem today) (with files) (behind builds files)
      (text "seed") (text "config") (some (text "first")) none (text "all.json") (text "all.json")
      named latest built

retention_name-injective_example : (text "all" ≡ text "all") × (◌≡◌ {A = ℕ} 20 20)
retention_name-injective_example =
    retention_name-injective (text "all") (text "all") 20 20 (omega arith) (omega arith) refl

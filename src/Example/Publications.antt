-- ===== src/Example/Publications.antt =====
-- The theorems on the writes of `build-snapshot`, on a small disk.
use onym_discovery.Prelude.{◌≡◌, ◌⊎◌, Text, refl, text, [], ◌∷◌, arith}
use onym_discovery.Types.Fields.{is_id_byte}
use onym_discovery.Types.Fields.Alphabet.{all-is_id_byte}
use onym_discovery.Build.{BuiltSnapshot}
use onym_discovery.Cli.Output.{sibling_differs}
use onym_discovery.Cli.Run.{World, returned, failed}
use onym_discovery.Cli.Names.{retention_path, sig_path}
use onym_discovery.Cli.Names.Apart.{IsApart}
use onym_discovery.Cli.Main.{publish}
use onym_discovery.Cli.Main.Repeated.{run_all, Spare, latest_only, publish_again}
use onym_discovery.Cli.Main.Ordered.{publish-Ordered, Ordered}
use onym_discovery.Example.Crates.{crates}
use onym_discovery.Example.Host.{host-IsFileSystem, flat}
use onym_discovery.Example.Disk.{system, with, files}
use onym_discovery.Example.Program.{commands}
use onym_discovery.Example.Documents.{today, snapshot_bytes₂}
use onym_discovery.Example.Commands.{generates, builds, latest, named}

abbrev second : BuiltSnapshot
second = record { bytes = snapshot_bytes₂; sequence = 2; digest = [] }

apart : IsApart system (host-IsFileSystem today) (text "all.json") (text "all.json") (text "all") 2
unfolding text is_id_byte
apart = record {
  token = (
    (λ e. absurd (ground (arith, e))),
    omega arith,
    (all-is_id_byte (b'a' ∷ b'l' ∷ b'l' ∷ [])).0 refl,
  );
  named = named;
  base_name = latest.is_name;
  not_sibling = latest.not_sibling (text "all") 2;
  not_sibling_sig = latest.not_sibling_sig (text "all") 2;
}

publish-Ordered_example :
    Ordered crates system
      (host-IsFileSystem today)
      (text "all.json")
      (text "all.json")
      (text "all")
      second
      (text "sig")
      apart
      (with files).disk
      (publish crates system (text "all.json") (text "all") second (text "sig") (with files)).1.disk
publish-Ordered_example =
    publish-Ordered crates system (host-IsFileSystem today) (text "all.json") (text "all.json")
      (text "all") second (text "sig") apart (with files)

abbrev once : World system
once = (publish crates system (text "all.json") (text "all") second (text "sig") (with files)).1

published :
    publish crates system (text "all.json") (text "all") second (text "sig") (with files)
    ≡ (returned tt, once)
unfolding files flat
published = refl

abbrev sibling : Text
sibling = retention_path system (text "all.json") (text "all") 2

sibling_spared : Spare system sibling (builds ∷ generates ∷ [])
unfolding commands flat
sibling_spared =
    (((λ e. absurd (ground (arith, e))), ((λ e. absurd (ground (arith, e))), tt)), (tt, tt))

sig_spared : Spare system (sig_path system sibling) (builds ∷ generates ∷ [])
unfolding commands flat
sig_spared =
    (((λ e. absurd (ground (arith, e))), ((λ e. absurd (ground (arith, e))), tt)), (tt, tt))

-- The same sequence with other bytes, the latest file under another name.
abbrev rebuilt : BuiltSnapshot
rebuilt = record { bytes = text "other"; sequence = 2; digest = [] }

same_sibling : retention_path system (text "new.json") (text "all") 2 ≡ sibling
unfolding commands flat
same_sibling = refl

publish_again_example :
    ((rebuilt.bytes ≡ second.bytes)
      × (text "sig" ≡ text "sig")
      × (publish crates system
            (text "new.json")
            (text "all")
            rebuilt
            (text "sig")
            (run_all crates system (builds ∷ generates ∷ []) once)
          ≡ latest_only system
              (text "new.json")
              rebuilt.bytes
              (text "sig")
              (run_all crates system (builds ∷ generates ∷ []) once)))
    ⊎ ((q : Text) × (publish crates system
            (text "new.json")
            (text "all")
            rebuilt
            (text "sig")
            (run_all crates system (builds ∷ generates ∷ []) once)
          ≡ (failed (sibling_differs q), run_all crates system (builds ∷ generates ∷ []) once)))
publish_again_example =
    publish_again crates system (host-IsFileSystem today) (text "all.json") (text "all.json")
      (text "all") second (text "sig") apart (with files) once published (builds ∷ generates ∷ [])
      sibling_spared sig_spared (text "new.json") rebuilt (text "sig") same_sibling

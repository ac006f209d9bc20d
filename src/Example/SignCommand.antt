-- ===== src/Example/SignCommand.antt =====
-- The theorem on `sign-manifest`, on a disk with a seed file and a document.
use onym_discovery.Prelude.{◌≡◌, refl, text, some, false, [], ◌∷◌, arith}
use onym_discovery.Result.{ok}
use onym_discovery.Keys.{operator_id}
use onym_discovery.Sign.Signed.{IsSigned}
use onym_discovery.Verify.Detached.{verify_detached_sig}
use onym_discovery.Cli.Host.{Host, IsName, contents}
use onym_discovery.Cli.Run.{World, returned}
use onym_discovery.Cli.Main.{sign_manifest, with_newline, main}
use onym_discovery.Cli.Main.Signed.{IsSignedOnDisk, sign_manifest-agrees}
use onym_discovery.Example.Crates.{crates, json_laws, key_laws, text_laws, base64_laws}
use onym_discovery.Example.Host.{host, host-IsFileSystem, flat, Files}
use onym_discovery.Example.Program.{commands}
use onym_discovery.Example.Documents.{seed, today}
use onym_discovery.Example.Signing.{members, raw, parses, regular}

abbrev system : Host
system = host today

unfoldable files : Files
unfolding commands
files = (text "seed", crates.hex_encode seed) ∷ (text "in.json", raw) ∷ []

abbrev start : World system
unfolding flat
start = record { disk = files; printed = [] }

abbrev ending : World system
ending =
    (main crates system (sign_manifest (text "seed") (text "in.json") (text "out.json")) start).1

signs :
    main crates system (sign_manifest (text "seed") (text "in.json") (text "out.json")) start
    ≡ (returned tt, ending)
unfolding flat commands files
signs = refl

input_read : system.read start.disk (text "in.json") ≡ contents raw
unfolding flat commands files
input_read = refl

named : system.file_name (text "out.json") ≡ some (text "out.json")
unfolding flat
named = refl

is_name : IsName (text "out.json")
unfolding text
is_name = (omega arith, refl)

sign_manifest-agrees_example :
    (d : IsSignedOnDisk crates system start.disk ending.disk
      (text "seed")
      (text "in.json")
      (text "out.json"))
    × IsSigned crates d.signed (operator_id crates (crates.verifying_key d.key)) (some d.sig)
    × (verify_detached_sig crates d.signed (with_newline d.sig) false ≡ ok tt)
sign_manifest-agrees_example =
    sign_manifest-agrees crates system (host-IsFileSystem today) json_laws key_laws text_laws
      base64_laws start ending (text "seed") (text "in.json") (text "out.json") (text "out.json")
      raw members false named is_name input_read parses regular signs

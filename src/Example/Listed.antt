-- ===== src/Example/Listed.antt =====
-- The theorems on what a build lists, at an entry whose digest is pinned from a file.
use onym_discovery.Prelude.{◌+◌, ◌≤◌, ◌≢◌, arith, ◌≡◌, ◌↔◌, refl, Bytes, text, none, some}
use onym_discovery.Result.{ok, panic}
use onym_discovery.Json.{Value, Members, end, null, string, as_object, get}
use onym_discovery.Crates.{done}
use onym_discovery.Types.Records.{CatalogEntry}
use onym_discovery.Verify.Entry.{decode_entry}
use onym_discovery.Verify.Detached.{verify_destination}
use onym_discovery.Build.{value_of_entry, check_listed, resolve_entry, build_snapshot}
use onym_discovery.Build.Total.{build_snapshot-Returns}
use onym_discovery.Types.Constants.{days}
use onym_discovery.Types.Fields.{format_timestamp}
use onym_discovery.Build.Checked.{IsDated}
use onym_discovery.Build.Listed.{resolve_entry-decodes}
use onym_discovery.Build.Pinned.{resolve_entry-pins}
use onym_discovery.Example.Crates.{crates, json_laws, hex_laws}
use onym_discovery.Example.Program.{program}
use onym_discovery.Example.Documents.{unwrap, operator, today, stamp, seed, snapshot_bytes₁}
use onym_discovery.Example.Builds.{config, listed, read_file}

unfoldable resolved_entry : Value
unfolding program operator
resolved_entry = unwrap null (resolve_entry crates read_file listed)

resolves_entry : resolve_entry crates read_file listed ≡ ok resolved_entry
unfolding resolved_entry
resolves_entry = refl

resolve_entry-decodes_example :
    (e : CatalogEntry) × (resolved_entry ≡ value_of_entry e)
    × (check_listed crates e ≡ ok tt)
    × ((decode_entry crates resolved_entry ≡ ok e) ↔ IsDated crates e)
resolve_entry-decodes_example =
    resolve_entry-decodes crates json_laws read_file listed resolved_entry resolves_entry

abbrev members_of : Value → Members
members_of v = elim (as_object v) [ none ↦ end | some ms ↦ ms ]

path_given : get (text "manifestFile") (members_of listed) ≡ some (string (text "r.json"))
unfolding program
path_given = refl

resolve_entry-pins_example :
    (bytes : Bytes) × (e : CatalogEntry) × (read_file (text "r.json") ≡ done bytes)
    × (resolved_entry ≡ value_of_entry e)
    × (verify_destination crates bytes e.manifest.digest ≡ ok tt)
resolve_entry-pins_example =
    resolve_entry-pins crates read_file (members_of listed) resolved_entry (text "r.json")
      resolves_entry path_given

times :
    (format_timestamp crates today ≡ ok (stamp today))
    × (format_timestamp crates (today + days 30) ≡ ok (stamp (today + days 30)))
unfolding program
times = (refl, refl)

lasts : today + days 30 ≤ crates.last_instant
unfolding program
lasts = omega arith

build_snapshot-Returns_example :
    build_snapshot crates read_file config (some snapshot_bytes₁) today seed ≢ panic
build_snapshot-Returns_example =
    build_snapshot-Returns crates hex_laws json_laws read_file config (some snapshot_bytes₁) today
      seed (stamp today) (stamp (today + days 30)) lasts times.0 times.1

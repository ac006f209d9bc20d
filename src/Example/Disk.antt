-- ===== src/Example/Disk.antt =====
-- A small disk for the commands: a seed, a config, a manifest and two snapshots.
use onym_discovery.Prelude.{Bytes, text, [], ◌∷◌, ◌++◌}
use onym_discovery.Json.{Value, number, unsigned}
use onym_discovery.Cli.Host.{Host}
use onym_discovery.Cli.Run.{World}
use onym_discovery.Example.Crates.{crates}
use onym_discovery.Example.Codec.{encode}
use onym_discovery.Example.Host.{host, flat, Files}
use onym_discovery.Example.Program.{program, commands}
use onym_discovery.Example.Documents.{
  seed, policy, operator, str, fields, items, stamp, today, manifest_bytes, snapshot_bytes₁,
  snapshot_bytes₂,
}

abbrev pub system : Host
system = host today

abbrev pub with : Files → World system
unfolding flat
with files = record { disk = files; printed = [] }

abbrev pub seed_file : Bytes
unfolding program
seed_file = crates.hex_encode seed ++ 10 ∷ []

abbrev pub listed : Value
unfolding operator
listed = fields (
    (text "componentId", str (text "onym:component:r"))
    ∷ (text "listedAt", str (stamp today))
    ∷ (text "manifest", fields ((text "uri", str (text "https://r.org/m.json")) ∷ []))
    ∷ (text "manifestFile", str (text "r.json"))
    ∷ (text "operator", str operator)
    ∷ (text "placement", str (text "sponsored"))
    ∷ (text "relationship", str (text "none"))
    ∷ (text "seatType", str (text "notary"))
    ∷ [])

abbrev pub config : Value
config = fields (
    (text "catalogId", str (text "all"))
    ∷ (text "providerId", str (text "onym:component:d"))
    ∷ (text "policyDigest", str policy)
    ∷ (text "expiryDays", number (unsigned 30))
    ∷ (text "entries", items (listed ∷ []))
    ∷ [])

unfoldable pub files : Files
unfolding manifest_bytes snapshot_bytes₁ snapshot_bytes₂ commands
files =
    (text "seed", seed_file)
    ∷ (text "config", encode config)
    ∷ (text "r.json", text "{}")
    ∷ (text "manifest", manifest_bytes)
    ∷ (text "first", snapshot_bytes₁)
    ∷ (text "second", snapshot_bytes₂)
    ∷ []

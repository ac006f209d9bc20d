-- ===== src/Build/Entry.antt =====
-- src/build.rs against src/types.rs: an entry that was written is read back.
use onym_discovery.Prelude.{
  ◌≡◌, refl, ap, Text, text, compare_text, ◌=ᵗ◌, Option, none, some, List, [], ◌∷◌, map, arith,
}
use onym_discovery.Json
use onym_discovery.Json.{Value, string, object, end, events, events_values, of_values}
use onym_discovery.Json.Regular.{RegularValues}
use onym_discovery.Crates.{Crates}
use onym_discovery.Crates.Laws.{JsonLaws, max_depth}
use onym_discovery.Types.Decode.{◌>>=◌, slots, string_of, nullable, list_of, elements_of, value_of}
use onym_discovery.Types.Entry.{manifest_ref_of, status_of, entry_of}
use onym_discovery.Types.Records.{CatalogEntry, EntryStatus, ManifestRef}
use onym_discovery.Build.{value_of_ref, value_of_status, value_of_entry}
use onym_discovery.Build.Read.{elements_of-events}

elements_of-strings :
    (ss : List Text) → elements_of string_of (events_values (of_values (map string ss))) ≡ some ss
unfolding elements_of string_of Json.events
elements_of-strings [] = refl
elements_of-strings (s ∷ ss) = ground (arith, elements_of-strings ss)

manifest_ref_of-value : (r : ManifestRef) → manifest_ref_of (events (value_of_ref r)) ≡ some r
unfolding manifest_ref_of value_of_ref slots string_of text ◌=ᵗ◌ compare_text Json.insert
    Json.events
manifest_ref_of-value r = refl

status_of-value :
    (state : Text) (uri : Option Text)
    → status_of (events (value_of_status (record { state = state; uri = uri })))
      ≡ some (record { state = state; uri = uri })
unfolding status_of value_of_status slots string_of nullable text ◌=ᵗ◌ compare_text Json.insert
    Json.events
status_of-value state none = refl
status_of-value state (some uri) = refl

nullable-status :
    (s : EntryStatus) → nullable status_of (events (value_of_status s)) ≡ some (some s)
unfolding nullable value_of_status Json.events
nullable-status s = ap (λ o. o >>= λ a. some (some a)) (status_of-value s.state s.uri)

nullable-string : (r : Text) → nullable string_of (events (string r)) ≡ some (some r)
unfolding nullable string_of Json.events
nullable-string r = refl

abbrev with_options : CatalogEntry → Option Text → Option EntryStatus → CatalogEntry
with_options e reviewed_at status = record e { reviewed_at = reviewed_at; status = status }

entry_of-fields :
    (crates : Crates) (e : CatalogEntry) (reviewed_at : Option Text) (status : Option EntryStatus)
    → elements_of (value_of crates) (events_values (of_values e.evidence)) ≡ some e.evidence
    → entry_of crates (events (value_of_entry (with_options e reviewed_at status)))
      ≡ some (with_options e reviewed_at status)
unfolding entry_of value_of_entry slots string_of list_of text ◌=ᵗ◌ compare_text Json.insert
    Json.events
entry_of-fields crates e none none evidence =
    rw (evidence, elements_of-strings e.profiles, manifest_ref_of-value e.manifest) refl
entry_of-fields crates e none (some s) evidence =
    rw
      (
        evidence,
        elements_of-strings e.profiles,
        manifest_ref_of-value e.manifest,
        nullable-status s,
      )
      refl
entry_of-fields crates e (some r) none evidence =
    rw
      (
        evidence,
        elements_of-strings e.profiles,
        manifest_ref_of-value e.manifest,
        nullable-string r,
      )
      refl
entry_of-fields crates e (some r) (some s) evidence =
    rw
      (
        evidence,
        elements_of-strings e.profiles,
        manifest_ref_of-value e.manifest,
        nullable-string r,
        nullable-status s,
      )
      refl

-- A typed entry that is written is the entry that is read.
pub entry_of-value :
    (crates : Crates)
    → JsonLaws crates
    → (e : CatalogEntry) → RegularValues max_depth (of_values e.evidence)
    → entry_of crates (events (value_of_entry e)) ≡ some e
entry_of-value crates json e plain =
    entry_of-fields crates e e.reviewed_at e.status
      (elements_of-events crates json e.evidence plain)

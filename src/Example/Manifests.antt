-- ===== src/Example/Manifests.antt =====
-- The theorems on manifests, entries and conflicts, at the documents.
use onym_discovery.Types.Fields.{parse_operator_key, validate_seat_type_member}
use onym_discovery.Types.Fields.KeyForms.{SpellsKey, IsSeatType, key_forms}
use onym_discovery.Example.Program.{program}
use onym_discovery.Types.Uri.{validate_uri}
use onym_discovery.Types.Uri.Plain.{IsPlainUri, validate_uri-IsPlainUri}
use onym_discovery.Prelude.{◌≡◌, ◌↔◌, refl, Text, text, none, false, List, [], ◌∷◌, All, contains}
use onym_discovery.Result.{ok}
use onym_discovery.Types.Records.{CatalogEntry}
use onym_discovery.Types.Fields.{validate_component_id, validate_catalog_id, validate_digest}
use onym_discovery.Types.Fields.Forms.{IsToken, IsHexDigest, Behind, id_forms}
use onym_discovery.Verify.Manifest.{gather, verify_manifest}
use onym_discovery.Verify.Manifest.Lossy.{IsGathered, gather_iff}
use onym_discovery.Verify.Manifest.Trust.{IsTrusted, verify_manifest-IsTrusted}
use onym_discovery.Verify.Conflicts.{conflicting_digests, no_conflict, cross_catalog_equivocation}
use onym_discovery.Verify.Conflicts.Report.{IsOf, Agree, cross_catalog_equivocation_iff}
use onym_discovery.Verify.Conflicts.Exact.{Ascending, Bound, concat, conflicting_digests_iff}
use onym_discovery.Verify.Entry.{check_entry}
use onym_discovery.Build.{check_listed}
use onym_discovery.Build.Checked.{IsDated, check_entry_iff}
use onym_discovery.Example.Crates.{crates, hex_laws}
use onym_discovery.Example.Documents.{
  manifest_bytes, today, verified_manifest, verified₁, verified₂, policy, operator, stamp, seed,
}

verifies : verify_manifest crates manifest_bytes today ≡ ok verified_manifest
unfolding verified_manifest
verifies = refl

verify_manifest-IsTrusted_example : IsTrusted crates manifest_bytes today verified_manifest
verify_manifest-IsTrusted_example =
    verify_manifest-IsTrusted crates manifest_bytes today verified_manifest verifies

gather_iff_example :
    (gather crates verified_manifest.manifest ≡ ok verified_manifest)
    ↔ IsGathered crates verified_manifest.manifest verified_manifest
gather_iff_example = gather_iff crates verified_manifest.manifest verified_manifest

-- An entry with the given name and digest.
abbrev entry : Text → Text → CatalogEntry
entry name digest = record {
  component_id = name;
  seat_type = text "notary";
  manifest = record { uri = text "https://r.org/m.json"; digest = digest };
  operator = operator;
  profiles = [];
  evidence = [];
  listed_at = stamp today;
  reviewed_at = none;
  relationship = text "none";
  placement = text "sponsored";
  status = none;
}

abbrev relay : Text
relay = text "onym:component:r"

-- Two catalogs of which the second binds the component anew.
abbrev sets : List (List CatalogEntry)
sets = (entry relay policy ∷ []) ∷ (entry relay (text "sha256:") ∷ []) ∷ []

conflicting_digests_iff_example :
    Ascending (conflicting_digests sets)
    × ((contains (conflicting_digests sets) relay ≡ false)
        ↔ ((d : Text) × All (Bound relay d) (concat sets)))
conflicting_digests_iff_example = conflicting_digests_iff sets relay

check_entry_iff_example :
    (check_entry crates (entry relay policy) ≡ ok (entry relay policy))
    ↔ ((check_listed crates (entry relay policy) ≡ ok tt) × IsDated crates (entry relay policy))
check_entry_iff_example = check_entry_iff crates (entry relay policy)

cross_catalog_equivocation_iff_example :
    (cross_catalog_equivocation (verified₁ ∷ verified₂ ∷ []) ≡ no_conflict) ↔ (
      ((p : Text) × All (IsOf p) (verified₁ ∷ verified₂ ∷ []))
      × ((k : Text) → Agree (verified₁ ∷ verified₂ ∷ []) k))
cross_catalog_equivocation_iff_example = cross_catalog_equivocation_iff (verified₁ ∷ verified₂ ∷ [])

id_forms_example :
    ((validate_component_id relay ≡ ok tt) ↔ Behind (text "onym:component:") IsToken relay)
    × ((validate_catalog_id relay ≡ ok tt) ↔ IsToken relay)
    × ((validate_digest relay ≡ ok tt) ↔ Behind (text "sha256:") IsHexDigest relay)
id_forms_example = id_forms relay

valid : validate_uri crates (text "https://d.org/all.json") ≡ ok tt
unfolding program
valid = refl

validate_uri-IsPlainUri_example : IsPlainUri crates (text "https://d.org/all.json")
validate_uri-IsPlainUri_example =
    validate_uri-IsPlainUri crates (text "https://d.org/all.json") valid

key_forms_example :
    ((parse_operator_key crates operator ≡ ok (crates.verifying_key seed))
      ↔ Behind (text "onym:key:") (SpellsKey crates (crates.verifying_key seed)) operator)
    × ((validate_seat_type_member operator ≡ ok tt) ↔ IsSeatType operator)
key_forms_example = key_forms crates hex_laws (crates.verifying_key seed) operator

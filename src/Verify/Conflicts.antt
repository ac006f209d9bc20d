-- ===== src/Verify/Conflicts.antt =====
-- src/verify.rs: one component bound to two digests, within a provider and between sources.
pub mod Exact
pub mod Report
use onym_discovery.Prelude.{
  Text, Bool, false, not, Option, none, some, List, [], ◌∷◌, any, ◌=ᵗ◌, compare_text, if◌then◌else◌,
  map,
}
use Prim.Native.Nat.{Ordering}
use onym_discovery.Types.Records.{CatalogEntry}
use onym_discovery.Verify.State.{VerifiedSnapshot}

pub data CrossCatalogCheck : Type 0 where
  no_conflict : CrossCatalogCheck
  conflicts : List Text → CrossCatalogCheck
  different_providers : CrossCatalogCheck

-- `BTreeSet::insert`: ascending, each text once.
unfoldable pub insert_text : Text → List Text → List Text
insert_text k [] = k ∷ []
insert_text k (j ∷ ks) = elim (compare_text k j) [
  | Ordering.lt ↦ k ∷ j ∷ ks
  | Ordering.eq ↦ j ∷ ks
  | Ordering.gt ↦ j ∷ insert_text k ks
]

-- The `BTreeMap` from a componentId to the first digest seen; only `get` and `insert` are used.
abbrev pub Bindings : Type 0
Bindings = List (Text × Text)

unfoldable pub binding : Text → Bindings → Option Text
binding k [] = none
binding k ((j, d) ∷ b) = if j =ᵗ k then some d else binding k b

unfoldable pub bind : Text → Text → Bindings → Bindings
bind k d [] = (k, d) ∷ []
bind k d ((j, d') ∷ b) = if j =ᵗ k then (j, d) ∷ b else (j, d') ∷ bind k d b

abbrev conflicting : Option Text → Text → Bool
conflicting none d = false
conflicting (some bound) d = not (bound =ᵗ d)

pub record Watch : Type 0 where
  pub bindings : Bindings
  pub conflicted : List Text

-- The body of the inner loop.
unfoldable pub watch_entry : CatalogEntry → Watch → Watch
unfolding binding bind insert_text
watch_entry e w =
    if conflicting (binding e.component_id w.bindings) e.manifest.digest
    then record w { conflicted = insert_text e.component_id w.conflicted }
    else record w { bindings = bind e.component_id e.manifest.digest w.bindings }

unfoldable pub watch_entries : List CatalogEntry → Watch → Watch
watch_entries [] w = w
watch_entries (e ∷ es) w = watch_entries es (watch_entry e w)

unfoldable pub watch_sets : List (List CatalogEntry) → Watch → Watch
watch_sets [] w = w
watch_sets (es ∷ sets) w = watch_sets sets (watch_entries es w)

unfoldable pub conflicting_digests : List (List CatalogEntry) → List Text
unfolding watch_sets watch_entries watch_entry
conflicting_digests sets = (watch_sets sets (record { bindings = []; conflicted = [] })).conflicted

unfoldable pub source_conflicts : List CatalogEntry → List CatalogEntry → List Text
unfolding conflicting_digests
source_conflicts a b = conflicting_digests (a ∷ b ∷ [])

-- `providers.any(|p| p != first)`, false where there is no snapshot.
unfoldable pub spans_providers : List VerifiedSnapshot → Bool
spans_providers [] = false
spans_providers (s ∷ ss) = any (λ t. not (t.snapshot.provider_id =ᵗ s.snapshot.provider_id)) ss

unfoldable pub report : List Text → CrossCatalogCheck
report [] = no_conflict
report (k ∷ ks) = conflicts (k ∷ ks)

unfoldable pub cross_catalog_equivocation : List VerifiedSnapshot → CrossCatalogCheck
unfolding conflicting_digests spans_providers report
cross_catalog_equivocation snapshots =
    if spans_providers snapshots
    then different_providers
    else report (conflicting_digests (map (λ s. s.entries) snapshots))

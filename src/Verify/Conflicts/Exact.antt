-- ===== src/Verify/Conflicts/Exact.antt =====
-- src/verify.rs: `conflicting_digests` reports exactly the components bound to two digests.
use onym_discovery.Prelude.{
  ◌≡◌, ◌≢◌, ◌↔◌, ◌⊎◌, inl, inr, refl, ap, sym, subst, ◌∙◌, Text, Bool, true, false, not, ◌&&◌, ◌||◌,
  Option, none, some, List, [], ◌∷◌, ◌++◌, All, arith, ◌=ᵗ◌, =ᵗ_iff, eq_of_compare, Before,
  Before-of_gt, Bool-cases, if◌then◌else◌, any, contains,
}
use onym_discovery.Types.Records.{CatalogEntry}
use onym_discovery.Verify.Conflicts.{
  conflicting, Watch, Bindings, binding, bind, insert_text, watch_entry, watch_entries, watch_sets,
  conflicting_digests,
}

-- The set and the map, through their tests.
contains-insert_text :
    (k j : Text) (ks : List Text)
    → contains (insert_text k ks) j ≡ (if k =ᵗ j then true else contains ks j)
unfolding insert_text
contains-insert_text k j [] = ground arith
contains-insert_text k j (i ∷ ks) =
    ground (arith, contains-insert_text k j ks, eq_of_compare k i, =ᵗ_iff k j, =ᵗ_iff i j)

binding-bind :
    (k j d : Text) (b : Bindings)
    → binding j (bind k d b) ≡ (if k =ᵗ j then some d else binding j b)
unfolding binding bind
binding-bind k j d [] = ground arith
binding-bind k j d ((i, d') ∷ b) =
    ground (arith, binding-bind k j d b, =ᵗ_iff i k, =ᵗ_iff i j, =ᵗ_iff k j)

abbrev pub concat : List (List CatalogEntry) → List CatalogEntry
concat [] = []
concat (es ∷ sets) = es ++ concat sets

watch_entries-append :
    (es fs : List CatalogEntry) (w : Watch)
    → watch_entries (es ++ fs) w ≡ watch_entries fs (watch_entries es w)
unfolding watch_entries
watch_entries-append [] fs w = refl
watch_entries-append (e ∷ es) fs w = watch_entries-append es fs (watch_entry e w)

watch_sets-flat :
    (sets : List (List CatalogEntry)) (w : Watch)
    → watch_sets sets w ≡ watch_entries (concat sets) w
unfolding watch_sets watch_entries
watch_sets-flat [] w = refl
watch_sets-flat (es ∷ sets) w =
    watch_sets-flat sets (watch_entries es w) ∙ sym (watch_entries-append es (concat sets) w)

-- The digests that entries give to one component.
abbrev digests : Text → List CatalogEntry → List Text
digests k [] = []
digests k (e ∷ es) = if e.component_id =ᵗ k then e.manifest.digest ∷ digests k es else digests k es

-- Whether a digest differs from the first.
abbrev differs : Option Text → List Text → Bool
differs none [] = false
differs none (d ∷ ds) = any (λ d'. not (d =ᵗ d')) ds
differs (some b) ds = any (λ d'. not (b =ᵗ d')) ds

contains-watch_entry :
    (k : Text) (e : CatalogEntry) (w : Watch)
    → contains (watch_entry e w).conflicted k
      ≡ (e.component_id =ᵗ k && conflicting (binding e.component_id w.bindings) e.manifest.digest)
        || contains w.conflicted k
unfolding watch_entry
contains-watch_entry k e w =
    elim (Bool-cases (conflicting (binding e.component_id w.bindings) e.manifest.digest)) [
      | inl h ↦ rw h (contains-insert_text e.component_id k w.conflicted ∙ ground arith)
      | inr h ↦ rw h (ground arith)
    ]

binding-watch_entry :
    (k : Text) (e : CatalogEntry) (w : Watch)
    → binding k (watch_entry e w).bindings ≡ (
        if e.component_id =ᵗ k
          && not (conflicting (binding e.component_id w.bindings) e.manifest.digest)
        then some e.manifest.digest
        else binding k w.bindings)
unfolding watch_entry
binding-watch_entry k e w =
    elim (Bool-cases (conflicting (binding e.component_id w.bindings) e.manifest.digest)) [
      | inl h ↦ rw h (ground arith)
      | inr h ↦ rw h (binding-bind e.component_id k e.manifest.digest w.bindings ∙ ground arith)
    ]

-- A digest in front of the others, the first one given or not.
differs-cons :
    (seen : Bool) (bound : Option Text) (d : Text) (ds : List Text)
    → (conflicting bound d
        || seen
        || differs (if not (conflicting bound d) then some d else bound) ds)
      ≡ (seen || differs bound (d ∷ ds))
differs-cons seen none d ds = ground arith
differs-cons seen (some b) d ds = ground (arith, =ᵗ_iff b d)

-- What one entry adds for one component.
watched :
    (k : Text) (e : CatalogEntry) (w : Watch) (ds : List Text)
    → (contains (watch_entry e w).conflicted k || differs (binding k (watch_entry e w).bindings) ds)
      ≡ (contains w.conflicted k
          || differs
              (binding k w.bindings)
              (if e.component_id =ᵗ k then e.manifest.digest ∷ ds else ds))
watched k e w ds = rw (contains-watch_entry k e w) (
    rw (binding-watch_entry k e w) (elim (Bool-cases (e.component_id =ᵗ k)) [
      | inl h ↦ rw h (
          rw (ap (λ i. binding i w.bindings) ((=ᵗ_iff e.component_id k).0 h))
            (differs-cons (contains w.conflicted k) (binding k w.bindings) e.manifest.digest ds))
      | inr h ↦ rw h (ground arith)
    ]))

contains-watch_entries :
    (k : Text) (es : List CatalogEntry) (w : Watch)
    → contains (watch_entries es w).conflicted k
      ≡ contains w.conflicted k || differs (binding k w.bindings) (digests k es)
unfolding watch_entries watch_entry
contains-watch_entries k [] w = ground arith
contains-watch_entries k (e ∷ es) w =
    rw (contains-watch_entries k es (watch_entry e w)) (watched k e w (digests k es))

abbrev pub Bound : Text → Text → CatalogEntry → Type 0
Bound k d e = (e.component_id ≢ k) ⊎ (e.manifest.digest ≡ d)

any_iff :
    (d : Text) (ds : List Text) → (any (λ d'. not (d =ᵗ d')) ds ≡ false) ↔ All (λ d'. d' ≡ d) ds
any_iff d [] = ground arith
any_iff d (d' ∷ ds) = ground (arith, =ᵗ_iff d d', any_iff d ds)

All-digests :
    (k d : Text) (es : List CatalogEntry) → All (λ d'. d' ≡ d) (digests k es) ↔ All (Bound k d) es
All-digests k d [] = ground arith
All-digests k d (e ∷ es) = ground (arith, =ᵗ_iff e.component_id k, All-digests k d es)

agree_iff : (ds : List Text) → (differs none ds ≡ false) ↔ ((d : Text) × All (λ d'. d' ≡ d) ds)
agree_iff [] = (λ _. ([], tt), λ _. refl)
agree_iff (d ∷ ds) = (
  λ h. (d, (refl, (any_iff d ds).0 h)),
  λ (d', (p, a)). (any_iff d ds).1 (subst (λ x. All (λ y. y ≡ x) ds) (sym p) a),
)

-- The set is printed in ascending order: each text stands before the next.
abbrev pub Ascending : List Text → Type 0
Ascending [] = Unit
Ascending (k ∷ []) = Unit
Ascending (k ∷ j ∷ ks) = Before k j × Ascending (j ∷ ks)

insert_text-Ascending : (k : Text) (ks : List Text) → Ascending ks → Ascending (insert_text k ks)
unfolding insert_text
insert_text-Ascending k [] h = tt
insert_text-Ascending k (j ∷ []) h = ground (arith, Before-of_gt k j)
insert_text-Ascending k (j ∷ i ∷ ks) h =
    ground (arith, Before-of_gt k j, Before-of_gt k i, insert_text-Ascending k (i ∷ ks))

watch_entry-Ascending :
    (e : CatalogEntry) (w : Watch) → Ascending w.conflicted → Ascending (watch_entry e w).conflicted
unfolding watch_entry
watch_entry-Ascending e w h =
    elim (Bool-cases (conflicting (binding e.component_id w.bindings) e.manifest.digest)) [
      | inl c ↦ rw c (insert_text-Ascending e.component_id w.conflicted h)
      | inr c ↦ rw c h
    ]

watch_entries-Ascending :
    (es : List CatalogEntry) (w : Watch)
    → Ascending w.conflicted
    → Ascending (watch_entries es w).conflicted
unfolding watch_entries
watch_entries-Ascending [] w h = h
watch_entries-Ascending (e ∷ es) w h =
    watch_entries-Ascending es (watch_entry e w) (watch_entry-Ascending e w h)

abbrev start : Watch
start = record { bindings = []; conflicted = [] }

flat :
    (sets : List (List CatalogEntry))
    → conflicting_digests sets ≡ (watch_entries (concat sets) start).conflicted
unfolding conflicting_digests
flat sets = ap (λ w. w.conflicted) (watch_sets-flat sets start)

-- `conflicting_digests` lists texts in ascending order, each once, and a component is absent from
-- the list exactly when one digest is the digest of all entries of all sets that name it.
pub conflicting_digests_iff :
    (sets : List (List CatalogEntry)) (k : Text)
    → Ascending (conflicting_digests sets)
      × ((contains (conflicting_digests sets) k ≡ false)
          ↔ ((d : Text) × All (Bound k d) (concat sets)))
unfolding binding
conflicting_digests_iff sets k = rw (flat sets) (
  watch_entries-Ascending (concat sets) start tt,
  rw (contains-watch_entries k (concat sets) start) (
    λ h.
        let (d, a) = (agree_iff (digests k (concat sets))).0 h in
        (d, (All-digests k d (concat sets)).0 a),
    λ (d, a). (agree_iff (digests k (concat sets))).1 (d, (All-digests k d (concat sets)).1 a),
  ),
)

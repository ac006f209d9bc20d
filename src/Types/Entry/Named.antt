-- ===== src/Types/Entry/Named.antt =====
-- src/types.rs: the manifest reference that an entry is read with, and its digest.
use onym_discovery.Prelude.{
  Text, text, ◌=ᵗ◌, some, [], ◌∷◌, ◌≡◌, subst, arith, Option-cases, inl, inr,
}
use onym_discovery.Json.{Value, string, object, Members, events, Stream, get}
use onym_discovery.Json
use onym_discovery.Crates.{Crates}
use onym_discovery.Types.Records.{CatalogEntry, ManifestRef}
use onym_discovery.Types.Decode.{Slots, slots, required, string_of}
use onym_discovery.Types.Decode.Filled.{slot, slots-filled}
use onym_discovery.Types.Entry.{
  entry_fields, entry_of, entry_of_slots, manifest_ref_fields, manifest_ref_of,
  manifest_ref_of_slots,
}

digest-slots :
    (os : Slots) (r : ManifestRef) (d : Text)
    → manifest_ref_of_slots os ≡ some r
    → slot (text "digest") manifest_ref_fields os ≡ some (events (string d))
    → r.digest ≡ d
unfolding manifest_ref_of_slots slot text ◌=ᵗ◌ string_of Json.events
digest-slots [] r d h f = absurd (ground (arith, h))
digest-slots (o0 ∷ []) r d h f = absurd (ground (arith, h))
digest-slots (o0 ∷ o1 ∷ []) r d h f =
    let given : required string_of o1 ≡ some r.digest = ground (arith, h) in
    ground (arith, given, f)
digest-slots (o0 ∷ o1 ∷ o2 ∷ os) r d h f = absurd (ground (arith, h))

pub manifest_ref_of-digest :
    (ms : Members) (r : ManifestRef) (d : Text)
    → manifest_ref_of (events (object ms)) ≡ some r
    → get (text "digest") ms ≡ some (string d)
    → r.digest ≡ d
unfolding manifest_ref_of
manifest_ref_of-digest ms r d h e =
    elim (Option-cases (slots manifest_ref_fields (events (object ms)))) [
      | inl f ↦ absurd (ground (arith, f, h))
      | inr (os, f) ↦
          digest-slots os r d (ground (arith, f, h))
            (slots-filled (text "digest") (string d) manifest_ref_fields ms os f e)
    ]

module _ (crates : Crates) where
  manifest-slots :
      (os : Slots) (e : CatalogEntry) (v : Value)
      → entry_of_slots crates os ≡ some e
      → slot (text "manifest") entry_fields os ≡ some (events v)
      → manifest_ref_of (events v) ≡ some e.manifest
  unfolding entry_of_slots slot text ◌=ᵗ◌
  manifest-slots [] e v h f = absurd (ground (arith, h))
  manifest-slots (o0 ∷ []) e v h f = absurd (ground (arith, h))
  manifest-slots (o0 ∷ o1 ∷ []) e v h f = absurd (ground (arith, h))
  manifest-slots (o0 ∷ o1 ∷ o2 ∷ []) e v h f = absurd (ground (arith, h))
  manifest-slots (o0 ∷ o1 ∷ o2 ∷ o3 ∷ []) e v h f = absurd (ground (arith, h))
  manifest-slots (o0 ∷ o1 ∷ o2 ∷ o3 ∷ o4 ∷ []) e v h f = absurd (ground (arith, h))
  manifest-slots (o0 ∷ o1 ∷ o2 ∷ o3 ∷ o4 ∷ o5 ∷ []) e v h f = absurd (ground (arith, h))
  manifest-slots (o0 ∷ o1 ∷ o2 ∷ o3 ∷ o4 ∷ o5 ∷ o6 ∷ []) e v h f = absurd (ground (arith, h))
  manifest-slots (o0 ∷ o1 ∷ o2 ∷ o3 ∷ o4 ∷ o5 ∷ o6 ∷ o7 ∷ []) e v h f = absurd (ground (arith, h))
  manifest-slots (o0 ∷ o1 ∷ o2 ∷ o3 ∷ o4 ∷ o5 ∷ o6 ∷ o7 ∷ o8 ∷ []) e v h f =
      absurd (ground (arith, h))
  manifest-slots (o0 ∷ o1 ∷ o2 ∷ o3 ∷ o4 ∷ o5 ∷ o6 ∷ o7 ∷ o8 ∷ o9 ∷ []) e v h f =
      absurd (ground (arith, h))
  manifest-slots (o0 ∷ o1 ∷ o2 ∷ o3 ∷ o4 ∷ o5 ∷ o6 ∷ o7 ∷ o8 ∷ o9 ∷ o10 ∷ []) e v h f =
      let given : required manifest_ref_of o2 ≡ some e.manifest = ground (arith, h) in
      let here : o2 ≡ some (events v) = f in
      subst (λ o. required manifest_ref_of o ≡ some e.manifest) here given
  manifest-slots (o0 ∷ o1 ∷ o2 ∷ o3 ∷ o4 ∷ o5 ∷ o6 ∷ o7 ∷ o8 ∷ o9 ∷ o10 ∷ o11 ∷ os) e v h f =
      absurd (ground (arith, h))

  pub entry_of-manifest :
      (ms : Members) (e : CatalogEntry) (v : Value)
      → entry_of crates (events (object ms)) ≡ some e
      → get (text "manifest") ms ≡ some v
      → manifest_ref_of (events v) ≡ some e.manifest
  unfolding entry_of
  entry_of-manifest ms e v h g = elim (Option-cases (slots entry_fields (events (object ms)))) [
    | inl f ↦ absurd (ground (arith, f, h))
    | inr (os, f) ↦
        manifest-slots os e v (ground (arith, f, h))
          (slots-filled (text "manifest") v entry_fields ms os f g)
  ]

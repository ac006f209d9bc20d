-- ===== src/Verify/Manifest/Lossy.antt =====
-- src/verify.rs, `verify_manifest`: the loop over the descriptors against a plain description.
use onym_discovery.Prelude.{
  ℕ, suc, ◌≡◌, ◌↔◌, refl, ◌∙◌, subst, sym, Text, Bool, true, false, List, [], ◌∷◌, ◌++◌, arith,
  contains, contains_iff, Distinct, NewIn, NewIn-Distinct, Bool-cases, inl, inr, ◌=ᵗ◌,
  if◌then◌else◌, ◌≢◌, ◌&&◌, is_empty,
}
use mathlib.Core.List.{append_assoc, append-nil}
use onym_discovery.Error.{Error, provider_manifest_invalid, duplicate_catalog_id}
use onym_discovery.Result.{
  ok-cases, >>=-eq-ok, Result, ok, err, panic, ◌>>=◌, ◌>>◌, Returns, Returns-bind, Returns-ok_or,
  ok_or, fail_if,
}
use onym_discovery.Json.{Value, events}
use onym_discovery.Crates.{Crates}
use onym_discovery.Types.Records.{CatalogDescriptor, ProviderManifest}
use onym_discovery.Types.Fields.{validate_digest}
use onym_discovery.Types.Uri.{validate_uri}
use onym_discovery.Verify.State.{VerifiedManifest}
use onym_discovery.Types.Entry.{descriptor_of}
use onym_discovery.Types.Fields.Total.{
  validate_catalog_id-Returns, validate_uri-Returns, validate_digest-Returns,
  validate_seat_type_member-Returns,
}
use onym_discovery.Verify.Manifest.{
  public, Scan, no_scan, place, scan_one, scan_from, gather, decode_descriptor, check_descriptor,
  validate_members,
}

-- What one value adds in front of what the later values give.
abbrev add : ℕ → Result CatalogDescriptor → Scan → Scan
add i (ok c) sc =
    if c.audience =ᵗ public
    then record sc { catalogs = c ∷ sc.catalogs; decoded_ids = c.catalog_id ∷ sc.decoded_ids }
    else record sc {
      audience_skipped = i ∷ sc.audience_skipped;
      audience_skipped_ids = c.catalog_id ∷ sc.audience_skipped_ids;
      decoded_ids = c.catalog_id ∷ sc.decoded_ids;
    }
add i _ sc = record sc { skipped = i ∷ sc.skipped }

-- The values, numbered from `i`, sorted out: the public descriptors, the positions of those that do
-- not decode, the positions and ids of those that are not public, and the ids of all that decode.
pub sort_out : Crates → ℕ → List Value → Scan
sort_out crates i [] = no_scan
sort_out crates i (v ∷ vs) = add i (decode_descriptor crates v) (sort_out crates (suc i) vs)

-- The loop's set takes the ids one by one.
abbrev push_all : List Text → List Text → List Text
push_all [] seen = seen
push_all (k ∷ ks) seen = push_all ks (k ∷ seen)

abbrev join : Scan → Scan → Scan
join a b = record {
  catalogs = a.catalogs ++ b.catalogs;
  skipped = a.skipped ++ b.skipped;
  audience_skipped = a.audience_skipped ++ b.audience_skipped;
  audience_skipped_ids = a.audience_skipped_ids ++ b.audience_skipped_ids;
  decoded_ids = push_all b.decoded_ids a.decoded_ids;
}

join-place :
    (i : ℕ) (c : CatalogDescriptor) (a b : Scan) → join (place i c a) b ≡ join a (add i (ok c) b)
unfolding place
join-place i c a b = elim (Bool-cases (c.audience =ᵗ public)) [
  | inl e ↦ simp (e, append_assoc)
  | inr e ↦ simp (e, append_assoc)
]

decoded_ids-place :
    (i : ℕ) (c : CatalogDescriptor) (a : Scan)
    → (place i c a).decoded_ids ≡ c.catalog_id ∷ a.decoded_ids
unfolding place
decoded_ids-place i c a = ground arith

decoded_ids-add :
    (i : ℕ) (c : CatalogDescriptor) (b : Scan)
    → (add i (ok c) b).decoded_ids ≡ c.catalog_id ∷ b.decoded_ids
decoded_ids-add i c b = ground arith

join-no_scan : (a : Scan) → join a no_scan ≡ a
join-no_scan a = simp append-nil

validate_members-Returns : (ms : List Text) → Returns (validate_members ms)
unfolding validate_members
validate_members-Returns [] = λ p. cc
validate_members-Returns (m ∷ ms) =
    ground (arith, validate_seat_type_member-Returns m, validate_members-Returns ms)

module _ (crates : Crates) where
  check_descriptor-Returns : (c : CatalogDescriptor) → Returns (check_descriptor crates c)
  unfolding check_descriptor
  check_descriptor-Returns c = ground (
    arith,
    validate_catalog_id-Returns c.catalog_id,
    validate_uri-Returns crates c.snapshot,
    validate_digest-Returns c.policy,
    validate_uri-Returns crates c.policy_uri,
    validate_members-Returns c.seat_types,
  )

  pub decode_descriptor-Returns : (v : Value) → Returns (decode_descriptor crates v)
  unfolding decode_descriptor
  decode_descriptor-Returns v =
      Returns-bind (ok_or (descriptor_of (events v)) _) _ (Returns-ok_or _ _)
        λ c _. check_descriptor-Returns c

  -- A loop's round that first refuses what was seen.
  guarded :
      {P Q R : Type 0} (seen : Bool) (e : Error) (a s : Scan) (rest : Scan → Result Scan)
      → (seen ≡ false) ↔ P
      → (rest a ≡ ok s) ↔ (Q × R)
      → ((fail_if seen e >> ok a >>= rest) ≡ ok s) ↔ ((P × Q) × R)
  guarded true e a s rest fresh round = (λ h. cc, λ ((p, _), _). cc (fresh.1 p))
  guarded false e a s rest fresh round =
      (λ h. ((fresh.0 refl, (round.0 h).0), (round.0 h).1), λ ((_, q), r). round.1 (q, r))

  abbrev Meets : Scan → Scan → Result Scan → Scan → Type 0
  Meets a b run s = (run ≡ ok s) ↔ (NewIn a.decoded_ids b.decoded_ids × (s ≡ join a b))

  -- One round, the later rounds given.
  scan_one_iff :
      (i : ℕ) (r : Result CatalogDescriptor) (a b : Scan) (rest : Scan → Result Scan) (s : Scan)
      → Returns r
      → ((a' : Scan) → Meets a' b (rest a') s)
      → Meets a (add i r b) (scan_one i r a >>= rest) s
  unfolding scan_one
  scan_one_iff i (ok c) a b rest s h later =
      let Round : Scan → Type 0 = λ whole.
        (rest (place i c a) ≡ ok s)
        ↔ (NewIn (c.catalog_id ∷ a.decoded_ids) b.decoded_ids × (s ≡ whole)) in
      let round : Round (join a (add i (ok c) b)) = subst Round (join-place i c a b) (
        subst
          (λ ks.
            (rest (place i c a) ≡ ok s) ↔ (NewIn ks b.decoded_ids × (s ≡ join (place i c a) b)))
          (decoded_ids-place i c a) (later (place i c a))) in
      subst
        (λ ks.
          (scan_one i (ok c) a >>= rest ≡ ok s)
          ↔ (NewIn a.decoded_ids ks × (s ≡ join a (add i (ok c) b))))
        (sym (decoded_ids-add i c b))
        (guarded (contains a.decoded_ids c.catalog_id)
          (provider_manifest_invalid (duplicate_catalog_id c.catalog_id)) (place i c a) s rest
          (contains_iff a.decoded_ids c.catalog_id) round)
  scan_one_iff i (err e) a b rest s h later =
      rw append_assoc at (later (record a { skipped = a.skipped ++ i ∷ [] }))
  scan_one_iff i panic a b rest s h later = absurd (h refl)

  scan_from_iff :
      (i : ℕ) (vs : List Value) (a s : Scan)
      → Meets a (sort_out crates i vs) (scan_from crates i vs a) s
  unfolding scan_from sort_out
  scan_from_iff i [] a s = rw (join-no_scan a) (ground arith)
  scan_from_iff i (v ∷ vs) a s =
      scan_one_iff i (decode_descriptor crates v) a (sort_out crates (suc i) vs)
        (scan_from crates (suc i) vs) s (decode_descriptor-Returns v)
        (λ a'. scan_from_iff (suc i) vs a' s)

-- What the manifest's descriptors come to.
abbrev pub sorted : Crates → ProviderManifest → Scan
sorted crates m = sort_out crates 0 m.catalogs

is_empty-push_all :
    (ks : List Text) (seen : List Text) → is_empty (push_all ks seen) ≡ is_empty ks && is_empty seen
is_empty-push_all [] seen = refl
is_empty-push_all (k ∷ ks) seen = is_empty-push_all ks (k ∷ seen) ∙ ground arith

is_empty_iff : (ks : List Text) → (is_empty ks ≡ false) ↔ (ks ≢ [])
is_empty_iff [] = ground arith
is_empty_iff (k ∷ ks) = ground arith

-- No id repeats among the descriptors that decode, at least one decodes, the privacy profile is well
-- formed, and `v` holds the public descriptors in their order, the positions of those that do not
-- decode, and the positions and ids of those that are not public.
abbrev pub IsGathered : Crates → ProviderManifest → VerifiedManifest → Type 0
IsGathered crates m v =
    Distinct (sorted crates m).decoded_ids
    × ((sorted crates m).decoded_ids ≢ [])
    × (validate_uri crates m.privacy_profile_uri ≡ ok tt)
    × (validate_digest m.privacy_profile ≡ ok tt)
    × (v ≡ record {
      manifest = m;
      catalogs = (sorted crates m).catalogs;
      skipped = (sorted crates m).skipped;
      audience_skipped = (sorted crates m).audience_skipped;
      audience_skipped_ids = (sorted crates m).audience_skipped_ids;
    })

-- Behind the signature and the expiry a manifest is accepted exactly when no id repeats among the
-- descriptors that decode, at least one decodes, and the privacy profile is well formed; the
-- result holds the public descriptors in their order, the positions of those that do not decode,
-- and the positions and ids of those that are not public.
pub gather_iff :
    (crates : Crates) (m : ProviderManifest) (v : VerifiedManifest)
    → (gather crates m ≡ ok v) ↔ IsGathered crates m v
unfolding gather
gather_iff crates m v = elim (ok-cases (scan_from crates 0 m.catalogs no_scan)) [
  | inl (sc, e) ↦
      let (news, same) = (scan_from_iff crates 0 m.catalogs no_scan sc).0 e in
      ground (
        arith,
        e,
        same,
        (NewIn-Distinct (sorted crates m).decoded_ids).0 news,
        is_empty-push_all (sorted crates m).decoded_ids [],
        is_empty_iff (sorted crates m).decoded_ids,
      )
  | inr none_such ↦ (
    λ h. absurd (none_such _ (>>=-eq-ok (scan_from crates 0 m.catalogs no_scan) _ h).1),
    λ (distinct, _, _, _, _). absurd (
        none_such _ (
          (scan_from_iff crates 0 m.catalogs no_scan _).1
            ((NewIn-Distinct (sorted crates m).decoded_ids).1 distinct, refl))),
  )
]

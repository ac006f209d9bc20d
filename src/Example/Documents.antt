-- ===== src/Example/Documents.antt =====
-- Small signed documents: a manifest with one public catalog, and two snapshots of it.
use onym_discovery.Prelude.{ℕ, ◌+◌, Text, Bytes, text, none, some, List, [], ◌∷◌, ◌++◌, false}
use onym_discovery.Result.{Result, ok}
use onym_discovery.Json.{
  Value, string, number, unsigned, array, object, Members, end, member, of_values,
}
use onym_discovery.Sign.{sign_document}
use onym_discovery.Keys.{operator_id}
use onym_discovery.Types.Constants.{implementation_profile}
use onym_discovery.Verify.State.{
  VerifiedManifest, VerifiedSnapshot, RetainedCatalogState, first_acceptance, sha256_digest,
  after_acceptance,
}
use onym_discovery.Verify.Snapshot.{verify_snapshot}
use onym_discovery.Verify.Manifest.{verify_manifest}
use onym_discovery.Example.Crates.{crates}
use onym_discovery.Example.Program.{program}
use onym_discovery.Example.Codec.{encode}

-- A value, or the default where there is none.
abbrev pub unwrap {ℓ} : {A : Type ℓ} → A → Result A → A
unwrap d (ok a) = a
unwrap d _ = d

abbrev pub seed : Bytes
seed =
    7 ∷ 7 ∷ 7 ∷ 7 ∷ 7 ∷ 7 ∷ 7 ∷ 7 ∷ 7 ∷ 7 ∷ 7 ∷ 7 ∷ 7 ∷ 7 ∷ 7 ∷ 7 ∷ 7 ∷ 7 ∷ 7 ∷ 7 ∷ 7 ∷ 7 ∷ 7 ∷ 7
    ∷ 7 ∷ 7 ∷ 7 ∷ 7 ∷ 7 ∷ 7 ∷ 7 ∷ 7 ∷ []

abbrev pub repeat_text : ℕ → Text → Text
repeat_text ℕ.zero s = []
repeat_text (ℕ.suc n) s = s ++ repeat_text n s

abbrev pub policy : Text
policy = text "sha256:" ++ repeat_text 32 (text "11")

abbrev pub str : Text → Value
str s = string s

abbrev pub fields : List (Text × Value) → Value
fields ms = object (go ms)
  where
    go : List (Text × Value) → Members
    go [] = end
    go ((k, v) ∷ r) = member k v (go r)

abbrev pub items : List Value → Value
items vs = array (of_values vs)

abbrev pub descriptor_value : Value
descriptor_value = fields (
    (text "catalogId", str (text "all"))
    ∷ (text "snapshot", str (text "https://d.org/all.json"))
    ∷ (text "audience", str (text "public"))
    ∷ (text "seatTypes", items (str (text "*") ∷ []))
    ∷ (text "policy", str policy)
    ∷ (text "policyUri", str (text "https://d.org/p.md"))
    ∷ [])

unfoldable pub operator : Text
unfolding program
operator = operator_id crates (crates.verifying_key seed)

abbrev pub manifest_value : Value
manifest_value = fields (
    (text "version", number (unsigned 1))
    ∷ (text "implementationProfileId", str implementation_profile)
    ∷ (text "providerId", str (text "onym:component:d"))
    ∷ (text "operator", str operator)
    ∷ (text "seat", str (text "discovery"))
    ∷ (text "catalogs", items (descriptor_value ∷ []))
    ∷ (text "capabilities", items [])
    ∷ (text "privacyProfile", str policy)
    ∷ (text "privacyProfileUri", str (text "https://d.org/p.md"))
    ∷ (text "offers", items [])
    ∷ (text "validUntil", str (9_000_000_000_000_000_000 ∷ b'Z' ∷ []))
    ∷ [])

unfoldable pub manifest_bytes : Bytes
unfolding program operator
manifest_bytes = unwrap [] (sign_document crates (encode manifest_value) seed)

abbrev pub today : ℕ
today = 1_000_000_000_000_000_000

abbrev pub stamp : ℕ → Text
stamp t = t ∷ b'Z' ∷ []

abbrev pub entry_value : Text → Text → Value
entry_value name digest = fields (
    (text "componentId", str (text "onym:component:" ++ name))
    ∷ (text "seatType", str (text "notary"))
    ∷ (
      text "manifest",
      fields ((text "uri", str (text "https://r.org/m.json")) ∷ (text "digest", str digest) ∷ []),
    )
    ∷ (text "operator", str operator)
    ∷ (text "listedAt", str (stamp today))
    ∷ (text "relationship", str (text "none"))
    ∷ (text "placement", str (text "sponsored"))
    ∷ [])

-- The fields that every snapshot has, behind those that differ.
abbrev pub snapshot_value : ℕ → List (Text × Value) → List Value → Value
snapshot_value sequence more entries = fields (
    (text "version", number (unsigned 1))
    ∷ (text "implementationProfileId", str implementation_profile)
    ∷ (text "catalogId", str (text "all"))
    ∷ (text "providerId", str (text "onym:component:d"))
    ∷ (text "sequence", number (unsigned sequence))
    ∷ (text "policyDigest", str policy)
    ∷ (text "generatedAt", str (stamp today))
    ∷ (text "expiresAt", str (stamp (today + 2_592_000_000_000_000)))
    ∷ (text "entries", items entries)
    ∷ more)

unfoldable pub snapshot_bytes₁ : Bytes
unfolding program operator
snapshot_bytes₁ = unwrap [] (
    sign_document crates
      (encode (snapshot_value 1 [] (entry_value (text "r") policy ∷ str (text "junk") ∷ []))) seed)

-- The next publication, chained onto the first, with nothing listed.
unfoldable pub snapshot_bytes₂ : Bytes
unfolding program snapshot_bytes₁
snapshot_bytes₂ = unwrap [] (
    sign_document crates
      (encode (
        snapshot_value 2 ((text "previousDigest", str (sha256_digest crates snapshot_bytes₁)) ∷ [])
          []))
      seed)

abbrev no_manifest : VerifiedManifest
no_manifest = record {
  manifest = record {
    version = 0;
    implementation_profile_id = [];
    provider_id = [];
    operator = [];
    seat = [];
    catalogs = [];
    capabilities = [];
    privacy_profile = [];
    privacy_profile_uri = [];
    offers = [];
    valid_until = [];
    signature = none;
  };
  catalogs = [];
  skipped = [];
  audience_skipped = [];
  audience_skipped_ids = [];
}

unfoldable pub verified_manifest : VerifiedManifest
unfolding program manifest_bytes
verified_manifest = unwrap no_manifest (verify_manifest crates manifest_bytes today)

abbrev no_snapshot : VerifiedSnapshot
no_snapshot = record {
  snapshot = record {
    version = 0;
    implementation_profile_id = [];
    catalog_id = [];
    provider_id = [];
    sequence = 0;
    previous_digest = none;
    policy_digest = [];
    generated_at = [];
    expires_at = [];
    entries = [];
    signature = none;
  };
  entries = [];
  skipped = [];
  digest = [];
  outcome = first_acceptance;
  policy_transition = false;
}

unfoldable pub verified₁ : VerifiedSnapshot
unfolding verified_manifest snapshot_bytes₁
verified₁ = unwrap no_snapshot (verify_snapshot crates snapshot_bytes₁ verified_manifest none today)

unfoldable pub retained₁ : RetainedCatalogState
unfolding verified₁
retained₁ = after_acceptance none verified₁

unfoldable pub verified₂ : VerifiedSnapshot
unfolding verified_manifest snapshot_bytes₂ retained₁
verified₂ =
    unwrap no_snapshot
      (verify_snapshot crates snapshot_bytes₂ verified_manifest (some retained₁) today)

-- ===== src/Verify/Detached/Agrees.antt =====
-- src/sign.rs against src/verify.rs: the detached signature file of a signed document.
use onym_discovery.Prelude.{
  ℕ, ◌≡◌, refl, subst, Text, Bytes, Bool, true, ◌||◌, ◌==◌, ltb, all, [], ◌∷◌, ◌++◌, arith, =ᵗ_refl,
}
use onym_discovery.Result.{ok, >>=-eq-ok}
use onym_discovery.Json.{Members, object}
use onym_discovery.Json.Regular.{Regular}
use onym_discovery.Crates.{Crates, done, parse_value}
use onym_discovery.Crates.Laws.{JsonLaws, KeyLaws, TextLaws, Base64Laws, is_base64_byte, max_depth}
use onym_discovery.Canonical.{reject_duplicate_keys, signing_bytes, canonical_bytes}
use onym_discovery.Keys.{sign, decode_signature_b64}
use onym_discovery.Sign.{sign_document, detached_signature}
use onym_discovery.Sign.Verifies.{sign_document-IsEmbedded, IsEmbedded-IsSigned}
use onym_discovery.Verify.Detached.{prepend, trim_line_ends, verify_detached_sig}

-- CR and LF.
abbrev pub is_line_end : ℕ → Bool
is_line_end b = b == 13 || b == 10

trim-line_ends : (ends : Text) → all is_line_end ends ≡ true → trim_line_ends ends ≡ []
unfolding trim_line_ends prepend
trim-line_ends [] h = refl
trim-line_ends (b ∷ ends) h = ground (arith, h, trim-line_ends ends)

trim-append :
    (s ends : Text)
    → all is_base64_byte s ≡ true
    → all is_line_end ends ≡ true
    → trim_line_ends (s ++ ends) ≡ s
unfolding trim_line_ends prepend
trim-append [] ends h k = trim-line_ends ends k
trim-append (b ∷ s) ends h k = ground (arith, h, k, trim-append s ends)

ascii-append :
    (s ends : Text)
    → all is_base64_byte s ≡ true
    → all is_line_end ends ≡ true
    → all (λ b. ltb b 128) (s ++ ends) ≡ true
ascii-append [] [] h k = refl
ascii-append [] (b ∷ ends) h k = ground (arith, h, k, ascii-append [] ends)
ascii-append (b ∷ s) ends h k = ground (arith, h, k, ascii-append s ends)

module _ (crates : Crates) (out : Bytes) (snapshot : Bool) where
  reject-signing_bytes :
      (message : Bytes)
      → signing_bytes crates out ≡ ok message
      → reject_duplicate_keys crates out ≡ ok tt
  unfolding signing_bytes canonical_bytes
  reject-signing_bytes message h =
      let (_, e, _) = >>=-eq-ok (reject_duplicate_keys crates out) _ h in e

  -- A file that trims to the embedded signature.
  verify_detached_sig-trimmed :
      (sig file bytes : Bytes)
      → reject_duplicate_keys crates out ≡ ok tt
      → detached_signature crates out ≡ ok sig
      → decode_signature_b64 crates sig ≡ ok bytes
      → crates.is_utf8 file ≡ true
      → trim_line_ends file ≡ sig
      → verify_detached_sig crates out file snapshot ≡ ok tt
  unfolding verify_detached_sig detached_signature
  verify_detached_sig-trimmed sig file bytes unique found decodes text trimmed =
      ground (arith, unique, found, decodes, text, trimmed, =ᵗ_refl bytes)

-- The signature that `detached_signature` finds in what `sign_document` has signed, followed by any line
-- ends, agrees with the signed document as its detached signature file, for a manifest and for a
-- snapshot; the document being without floats and not too deep.
pub verify_detached_sig-signed :
    (crates : Crates)
    → JsonLaws crates
    → KeyLaws crates
    → TextLaws crates
    → Base64Laws crates
    → (raw out key : Bytes) (ms : Members) (ends : Text) (snapshot : Bool)
    → parse_value crates raw ≡ done (object ms)
    → Regular max_depth (object ms)
    → sign_document crates raw key ≡ ok out
    → all is_line_end ends ≡ true
    → (sig : Text) × (detached_signature crates out ≡ ok sig)
      × (verify_detached_sig crates out (sig ++ ends) snapshot ≡ ok tt)
unfolding sign
verify_detached_sig-signed crates json keys texts base64 raw out key ms ends snapshot parsed r h k =
    let b = sign_document-IsEmbedded crates json raw out key ms parsed r h in
    let (found, signed) = IsEmbedded-IsSigned crates json keys out key ms r b in
    let sig : Text = sign crates key b.message in
    let plain : all is_base64_byte sig ≡ true =
      base64.encode_plain (crates.ed25519_sign key b.message)
        (keys.signature_bytes key b.message) in
    let same : signed.encoded ≡ sig = ground (arith, signed.present) in
    (
      sig,
      found,
      verify_detached_sig-trimmed crates out snapshot sig (sig ++ ends) signed.signature_bytes
          (reject-signing_bytes crates out snapshot signed.message signed.canonical) found
          (subst (λ t. decode_signature_b64 crates t ≡ ok signed.signature_bytes) same
            signed.decoded)
          (texts.ascii (sig ++ ends) (ascii-append sig ends plain k))
          (trim-append sig ends plain k),
    )

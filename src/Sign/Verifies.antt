-- ===== src/Sign/Verifies.antt =====
-- src/sign.rs against src/verify.rs: what is signed carries its operator's signature.
use onym_discovery.Prelude.{none, Text, Bytes, ◌≡◌, refl, ap, ◌∙◌, some, arith, strip_prefix_iff}
use onym_discovery.Result.{ok, >>=-eq-ok}
use onym_discovery.Json.{events, Value, string, object, Members, remove, insert, get}
use onym_discovery.Json.Regular.{
  Regular, IsObject-insert, IsObject-remove, remove-insert, get-insert, Absent-remove,
}
use onym_discovery.Crates.{Crates, done, from_slice, parse_value}
use onym_discovery.Crates.Laws.{JsonLaws, KeyLaws, max_depth}
use onym_discovery.Canonical.{
  signature_field, reject_duplicate_keys, canonical_bytes, signing_bytes,
}
use onym_discovery.Canonical.Unique.{any_value-events}
use onym_discovery.Keys.{sign, operator_id, decode_signature_b64}
use onym_discovery.Types.Fields.{parse_operator_key, key_scheme}
use onym_discovery.Sign.{sign_document, detached_signature}
use onym_discovery.Sign.Signed.{IsSigned}

module _ (crates : Crates) (json : JsonLaws crates) where
  open crates use {to_vec}

  -- What is written is read back as it was.
  pub parse_value-to_vec :
      (v : Value) (raw : Bytes)
      → Regular max_depth v
      → to_vec v ≡ done raw
      → parse_value crates raw ≡ done v
  unfolding from_slice
  parse_value-to_vec v raw r e = rw (json.read-to_vec v raw r e) (rw (json.collect-events v r) refl)

  reject_duplicate_keys-to_vec :
      (v : Value) (raw : Bytes)
      → Regular max_depth v
      → to_vec v ≡ done raw
      → reject_duplicate_keys crates raw ≡ ok tt
  unfolding reject_duplicate_keys
  reject_duplicate_keys-to_vec v raw r e =
      rw (json.read-to_vec v raw r e) (rw (any_value-events max_depth v r) refl)

  signing_bytes-to_vec :
      (ms : Members) (raw message : Bytes)
      → Regular max_depth (object ms)
      → to_vec (object ms) ≡ done raw
      → to_vec (object (remove signature_field ms)) ≡ done message
      → signing_bytes crates raw ≡ ok message
  unfolding signing_bytes
  signing_bytes-to_vec ms raw message r e f =
      rw (reject_duplicate_keys-to_vec (object ms) raw r e)
        (rw (parse_value-to_vec (object ms) raw r e) (rw f refl))

  -- The parts of a signed document.
  pub record IsEmbedded (key : Bytes) (ms : Members) (out : Bytes) : Type 0 where
    pub message : Bytes
    pub stripped : to_vec (object (remove signature_field ms)) ≡ done message
    pub whole :
        to_vec (
          object
            (insert signature_field (string (sign crates key message)) (remove signature_field ms)))
        ≡ done out

  pub sign_document-IsEmbedded :
      (raw out key : Bytes) (ms : Members)
      → parse_value crates raw ≡ done (object ms)
      → Regular max_depth (object ms)
      → sign_document crates raw key ≡ ok out
      → IsEmbedded key ms out
  unfolding sign_document signing_bytes canonical_bytes Regular
  sign_document-IsEmbedded raw out key ms parsed r h =
      let (message, e, h0) = >>=-eq-ok (signing_bytes crates raw) _ h in
      let (_, _, e1) = >>=-eq-ok (reject_duplicate_keys crates raw) _ e in
      let stripped : to_vec (object (remove signature_field ms)) ≡ done message =
        ground (arith, e1, parsed) in
      let again : parse_value crates message ≡ done (object (remove signature_field ms)) =
        parse_value-to_vec (object (remove signature_field ms)) message
          (IsObject-remove 126 signature_field ms r) stripped in
      record { message = message; stripped = stripped; whole = ground (arith, h0, again) }

-- The verifier reads the signed document's members.
pub IsEmbedded-read :
    (crates : Crates) (json : JsonLaws crates) (key : Bytes) (ms : Members) (out : Bytes)
    → Regular max_depth (object ms)
    → (b : IsEmbedded crates json key ms out)
    → crates.read out ≡ (
      events (
          object (
            insert signature_field
              (string (sign crates key b.message))
              (remove signature_field ms))),
      none,
    )
unfolding Regular
IsEmbedded-read crates json key ms out r b =
    json.read-to_vec
      (object
        (insert signature_field (string (sign crates key b.message)) (remove signature_field ms)))
      out
      (IsObject-insert 126 signature_field (string (sign crates key b.message))
        (remove signature_field ms) tt (IsObject-remove 126 signature_field ms r))
      b.whole

detached_signature-found :
    (crates : Crates) (out : Bytes) (ms : Members) (signature : Text)
    → parse_value crates out ≡ done (object ms)
    → get signature_field ms ≡ some (string signature)
    → detached_signature crates out ≡ ok signature
unfolding detached_signature
detached_signature-found crates out ms signature e f = ground (arith, e, f)

module _ (crates : Crates) (keys : KeyLaws crates) where
  open crates use {verifying_key, ed25519_sign}

  pub parse-operator_id :
      (key : Bytes)
      → parse_operator_key crates (operator_id crates (verifying_key key)) ≡ ok (verifying_key key)
  unfolding parse_operator_key operator_id
  parse-operator_id key = ground (
    arith,
    (strip_prefix_iff key_scheme (operator_id crates (verifying_key key))
          (crates.hex_encode (verifying_key key))).1
        refl,
    keys.hex_length key,
    keys.hex_digits key,
    keys.hex_decode-encode key,
    keys.key_length key,
  )

  decode-sign :
      (key message : Bytes)
      → decode_signature_b64 crates (sign crates key message) ≡ ok (ed25519_sign key message)
  unfolding decode_signature_b64 sign
  decode-sign key message = ground (
    arith,
    keys.base64_decode-encode (ed25519_sign key message) (keys.signature_bytes key message),
    keys.signature_length key message,
  )

-- What such a document's signature is.
pub IsEmbedded-IsSigned :
    (crates : Crates) (json : JsonLaws crates)
    → KeyLaws crates
    → (out key : Bytes) (ms : Members) → Regular max_depth (object ms)
    → (b : IsEmbedded crates json key ms out)
    → (detached_signature crates out ≡ ok (sign crates key b.message))
      × IsSigned crates out
          (operator_id crates (crates.verifying_key key))
          (some (sign crates key b.message))
unfolding Regular
IsEmbedded-IsSigned crates json keys out key ms r b =
    let rest = remove signature_field ms in
    let signature : Text = sign crates key b.message in
    let gone = Absent-remove signature_field ms r.0 in
    let regular : Regular max_depth (object (insert signature_field (string signature) rest)) =
      IsObject-insert 126 signature_field (string signature) rest tt
        (IsObject-remove 126 signature_field ms r) in
    let back = remove-insert signature_field (string signature) rest gone in
    (
      detached_signature-found crates out (insert signature_field (string signature) rest) signature
          (parse_value-to_vec crates json (object (insert signature_field (string signature) rest))
            out regular b.whole)
          (get-insert signature_field (string signature) rest gone),
      record {
        key = crates.verifying_key key;
        parsed = parse-operator_id crates keys key;
        public_key = crates.verifying_key key;
        decompressed = keys.from_bytes-key key;
        encoded = signature;
        present = refl;
        message = b.message;
        canonical =
            signing_bytes-to_vec crates json (insert signature_field (string signature) rest) out
              b.message regular b.whole (ap (λ x. crates.to_vec (object x)) back ∙ b.stripped);
        signature_bytes = crates.ed25519_sign key b.message;
        decoded = decode-sign crates keys key b.message;
        valid = keys.verify-sign key b.message;
      },
    )

-- What `sign_document` makes of a document without floats and not too deep carries a signature
-- that `detached_signature` finds in it, and verification accepts it as that of the key's own
-- operator id over the canonical form of the signed bytes.
pub sign_document-IsSigned :
    (crates : Crates)
    → JsonLaws crates
    → KeyLaws crates
    → (raw out key : Bytes) (ms : Members) → parse_value crates raw ≡ done (object ms)
    → Regular max_depth (object ms)
    → sign_document crates raw key ≡ ok out
    → (signature : Text) × (detached_signature crates out ≡ ok signature)
      × IsSigned crates out (operator_id crates (crates.verifying_key key)) (some signature)
sign_document-IsSigned crates json keys raw out key ms parsed r h =
    let b = sign_document-IsEmbedded crates json raw out key ms parsed r h in
    let (found, signed) = IsEmbedded-IsSigned crates json keys out key ms r b in
    (sign crates key b.message, found, signed)

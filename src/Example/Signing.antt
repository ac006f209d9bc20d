-- ===== src/Example/Signing.antt =====
-- The theorems on signing, at a document that bears a stale signature.
use onym_discovery.Prelude.{
  none, false, [], ◌∷◌, ◌++◌, ◌↔◌, ◌≡◌, refl, Text, Bytes, text, compare_text, some,
}
use onym_discovery.Result.{ok}
use onym_discovery.Json.{Members, end, member, object, string, number, unsigned}
use onym_discovery.Json.Regular.{Regular}
use onym_discovery.Crates.{done, parse_value}
use onym_discovery.Crates.Laws.{max_depth}
use onym_discovery.Canonical.{signature_field}
use onym_discovery.Canonical.{reject_duplicate_keys}
use onym_discovery.Canonical.Exact.{IsUnique, reject_duplicate_keys_iff}
use onym_discovery.Keys.{operator_id}
use onym_discovery.Sign.{sign_document, detached_signature}
use onym_discovery.Sign.Signed.{IsSigned}
use onym_discovery.Sign.Verifies.{sign_document-IsSigned}
use onym_discovery.Verify.Detached.{verify_detached_sig}
use onym_discovery.Verify.Detached.Agrees.{verify_detached_sig-signed}
use onym_discovery.Example.Crates.{crates, json_laws, key_laws, text_laws, base64_laws}
use onym_discovery.Example.Codec.{encode}
use onym_discovery.Example.Program.{program}
use onym_discovery.Example.Documents.{seed, unwrap}

abbrev pub members : Members
members = member (text "seat") (string (text "discovery")) (
    member signature_field (string (text "stale"))
      (member (text "version") (number (unsigned 1)) end))

abbrev pub raw : Bytes
unfolding program
raw = encode (object members)

unfoldable signed : Bytes
unfolding program
signed = unwrap raw (sign_document crates raw seed)

signs : sign_document crates raw seed ≡ ok signed
unfolding signed
signs = refl

pub parses : parse_value crates raw ≡ done (object members)
unfolding program
parses = refl

pub regular : Regular max_depth (object members)
unfolding Regular compare_text text
regular = (((refl, (refl, tt)), ((refl, tt), (tt, tt))), (tt, (tt, (tt, tt))))

sign_document-IsSigned_example :
    (signature : Text) × (detached_signature crates signed ≡ ok signature)
    × IsSigned crates signed (operator_id crates (crates.verifying_key seed)) (some signature)
sign_document-IsSigned_example =
    sign_document-IsSigned crates json_laws key_laws raw signed seed members parses regular signs

reject_duplicate_keys_iff_example :
    (reject_duplicate_keys crates raw ≡ ok tt)
    ↔ (IsUnique (crates.read raw).0 × ((crates.read raw).1 ≡ none))
reject_duplicate_keys_iff_example = reject_duplicate_keys_iff crates raw

verify_detached_sig-signed_example :
    (sig : Text) × (detached_signature crates signed ≡ ok sig)
    × (verify_detached_sig crates signed (sig ++ 13 ∷ 10 ∷ []) false ≡ ok tt)
verify_detached_sig-signed_example =
    verify_detached_sig-signed crates json_laws key_laws text_laws base64_laws raw signed seed
      members (13 ∷ 10 ∷ []) false parses regular signs refl

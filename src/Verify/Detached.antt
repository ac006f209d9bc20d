-- ===== src/Verify/Detached.antt =====
-- src/verify.rs: destination manifests by their digest, and the agreement of a detached `.sig`.
pub mod Agrees
pub mod Total
use onym_discovery.Prelude.{
  ℕ, Text, Bytes, Bool, [], ◌∷◌, length, ltb, ◌==◌, ◌=ᵗ◌, ◌||◌, if◌then◌else◌,
}
use onym_discovery.Error.{
  Error, Message, provider_manifest_invalid, snapshot_invalid, entry_manifest_unavailable,
  entry_manifest_mismatch, oversize, digest_mismatch, shown, malformed_json, no_signature_field,
  detached_not_utf8, embedded_decode, detached_decode, detached_disagrees,
}
use onym_discovery.Result.{Result, ◌>>=◌, ◌>>◌, fail_if, guard, map_err, ok_or}
use onym_discovery.Crates.{Crates, attempt, parse_value}
use onym_discovery.Types.Constants.{max_destination_manifest_bytes}
use onym_discovery.Canonical.{reject_duplicate_keys}
use onym_discovery.Keys.{decode_signature_b64}
use onym_discovery.Sign.{embedded_signature}
use onym_discovery.Verify.State.{sha256_digest}

-- A line end that nothing but line ends follows goes.
prepend : ℕ → Text → Text
prepend b [] = if b == 13 || b == 10 then [] else b ∷ []
prepend b (c ∷ s) = b ∷ c ∷ s

-- `trim_end_matches(['\r', '\n'])`
unfoldable pub trim_line_ends : Text → Text
unfolding prepend
trim_line_ends [] = []
trim_line_ends (b ∷ s) = prepend b (trim_line_ends s)

-- The variant that `snapshot` selects.
unfoldable pub fail : Bool → Message → Error
fail snapshot m = if snapshot then snapshot_invalid m else provider_manifest_invalid m

module _ (crates : Crates) where
  open crates use {is_utf8}

  unfoldable pub verify_destination : Bytes → Text → Result (Unit {0})
  verify_destination manifest_bytes pinned_digest = do
    fail_if (ltb max_destination_manifest_bytes (length manifest_bytes))
        (entry_manifest_unavailable (oversize max_destination_manifest_bytes))
    guard (sha256_digest crates manifest_bytes =ᵗ pinned_digest) (
        entry_manifest_mismatch
          (digest_mismatch pinned_digest (sha256_digest crates manifest_bytes)))

  unfoldable pub verify_detached_sig : Bytes → Bytes → Bool → Result (Unit {0})
  unfolding fail
  verify_detached_sig signed_document sig_file snapshot = do
    map_err (λ e. fail snapshot (shown e)) (reject_duplicate_keys crates signed_document)
    value ← attempt (λ e. fail snapshot (malformed_json e)) (parse_value crates signed_document)
    embedded ← ok_or (embedded_signature value) (fail snapshot no_signature_field)
    guard (is_utf8 sig_file) (fail snapshot detached_not_utf8)
    embedded_bytes ←
        map_err (λ e. fail snapshot (embedded_decode e)) (decode_signature_b64 crates embedded)
    detached_bytes ←
        map_err (λ e. fail snapshot (detached_decode e))
          (decode_signature_b64 crates (trim_line_ends sig_file))
    guard (embedded_bytes =ᵗ detached_bytes) (fail snapshot detached_disagrees)

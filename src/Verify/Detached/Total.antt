-- ===== src/Verify/Detached/Total.antt =====
-- src/verify.rs: `verify_destination`, `verify_detached_sig` and `from_snapshot_bytes` do not panic.
use onym_discovery.Prelude.{Text, Bytes, Bool, Option, arith, ◌=ᵗ◌}
use onym_discovery.Result.{
  ◌>>=◌, ◌>>◌, Returns, Returns-bind, Returns-map_err, Returns-ok_or, map_err, ok_or, guard,
}
use onym_discovery.Error.{
  Error, shown, malformed_json, no_signature_field, detached_not_utf8, embedded_decode,
  detached_decode, detached_disagrees,
}
use onym_discovery.Types.Fields.Total.{decode_signature_b64-Returns, reject_duplicate_keys-Returns}
use onym_discovery.Crates.{Crates, Attempt, done, failed, attempt, parse_value}
use onym_discovery.Canonical.{reject_duplicate_keys}
use onym_discovery.Keys.{decode_signature_b64}
use onym_discovery.Sign.{embedded_signature}
use onym_discovery.Verify.State.{read_previous, from_snapshot_bytes}
use onym_discovery.Verify.Detached.{verify_destination, verify_detached_sig, trim_line_ends, fail}

pub verify_destination-Returns :
    (crates : Crates) (bytes : Bytes) (digest : Text)
    → Returns (verify_destination crates bytes digest)
unfolding verify_destination
verify_destination-Returns crates bytes digest = ground arith

module _ (crates : Crates) where
  pub from_snapshot_bytes-Returns :
      (raw : Bytes) (policy : Option Text) → Returns (from_snapshot_bytes crates raw policy)
  unfolding from_snapshot_bytes read_previous
  from_snapshot_bytes-Returns raw policy = ground (arith, reject_duplicate_keys-Returns crates raw)

  attempt-Returns : {A : Type 0} (f : Text → Error) (a : Attempt A) → Returns (attempt f a)
  attempt-Returns f (done a) = λ p. cc
  attempt-Returns f (failed e) = λ p. cc

  rest-Returns :
      (file : Bytes) (snapshot : Bool) (embedded : Text)
      → Returns (do
        guard (crates.is_utf8 file) (fail snapshot detached_not_utf8)
        embedded_bytes ←
            map_err (λ e. fail snapshot (embedded_decode e)) (decode_signature_b64 crates embedded)
        detached_bytes ←
            map_err
              (λ e. fail snapshot (detached_decode e))
              (decode_signature_b64 crates (trim_line_ends file))
        guard (embedded_bytes =ᵗ detached_bytes) (fail snapshot detached_disagrees))
  rest-Returns file snapshot embedded = ground (
    arith,
    decode_signature_b64-Returns crates embedded,
    decode_signature_b64-Returns crates (trim_line_ends file),
  )

  pub verify_detached_sig-Returns :
      (raw file : Bytes) (snapshot : Bool) → Returns (verify_detached_sig crates raw file snapshot)
  unfolding verify_detached_sig
  verify_detached_sig-Returns raw file snapshot =
      Returns-bind (map_err (λ e. fail snapshot (shown e)) (reject_duplicate_keys crates raw)) _
        (Returns-map_err _ _ (reject_duplicate_keys-Returns crates raw))
        λ _ _.
          Returns-bind (attempt (λ e. fail snapshot (malformed_json e)) (parse_value crates raw)) _
            (attempt-Returns (λ e. fail snapshot (malformed_json e)) (parse_value crates raw))
            λ v _.
              Returns-bind (ok_or (embedded_signature v) (fail snapshot no_signature_field)) _
                (Returns-ok_or _ _) λ embedded _. rest-Returns file snapshot embedded

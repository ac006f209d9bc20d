-- ===== src/Types/Fields/Total.antt =====
-- src/types.rs and src/keys.rs: the checks of fields, keys and signatures do not panic. The one
-- `expect` among them, on the length of a decoded key, never fires.
use onym_discovery.Prelude.{◌≡◌, Text, Bytes, not, ◌||◌, length, all, ◌==◌, arith, strip_prefix}
use onym_discovery.Error.{Error, malformed, operator_key_hex, foreign}
use onym_discovery.Result.{
  Result, ◌>>=◌, Returns, Returns-bind, Returns-fail_if, Returns-ok_or, fail_if, ok_or, expect,
}
use onym_discovery.Crates.{Crates, Attempt, done, failed, attempt}
use onym_discovery.Crates.Laws.{HexLaws}
use onym_discovery.Types.Fields.{
  key_scheme, is_lower_hex, exactly, validate_component_id, validate_seat_type_member,
  validate_catalog_id, validate_digest, parse_operator_key, parse_timestamp,
}
use onym_discovery.Types.Uri.{validate_uri}
use onym_discovery.Keys
use onym_discovery.Keys.{decode_signature_b64}
use onym_discovery.Canonical.{
  reject_duplicate_keys, signing_bytes, any_value, any_elements, any_entries,
}
use onym_discovery.Json.{
  Stream, visit_seq, visit_map, Elements, end_seq, next_element, broken_seq, Entries, end_map,
  next_entry, broken_map,
}
use onym_discovery.Prelude.{List, [], ◌∷◌, refl}

pub validate_component_id-Returns : (v : Text) → Returns (validate_component_id v)
unfolding validate_component_id
validate_component_id-Returns v = ground arith

pub validate_seat_type_member-Returns : (v : Text) → Returns (validate_seat_type_member v)
unfolding validate_seat_type_member
validate_seat_type_member-Returns v = ground arith

pub validate_catalog_id-Returns : (v : Text) → Returns (validate_catalog_id v)
unfolding validate_catalog_id
validate_catalog_id-Returns v = ground arith

pub validate_digest-Returns : (v : Text) → Returns (validate_digest v)
unfolding validate_digest
validate_digest-Returns v = ground arith

mutual
  unfolding any_value

  any_value-Returns : (s : Stream) → Returns (any_value s)
  any_value-Returns (visit_seq els) = any_elements-Returns els
  any_value-Returns (visit_map es) = any_entries-Returns es []
  any_value-Returns _ = λ p. cc

  any_elements-Returns : (els : Elements) → Returns (any_elements els)
  any_elements-Returns end_seq = λ p. cc
  any_elements-Returns (next_element s els) =
      Returns-bind (any_value s) _ (any_value-Returns s) (λ _ _. any_elements-Returns els)
  any_elements-Returns (broken_seq e) = λ p. cc

  any_entries-Returns : (es : Entries) (seen : List Text) → Returns (any_entries seen es)
  any_entries-Returns end_map seen = λ p. cc
  any_entries-Returns (next_entry k s es) seen = Returns-bind _ _ (Returns-fail_if _ _) (λ _ _.
      Returns-bind (any_value s) _ (any_value-Returns s) (λ _ _. any_entries-Returns es (k ∷ seen)))
  any_entries-Returns (broken_map e) seen = λ p. cc

pub attempt-Returns {ℓ} : {A : Type ℓ} (f : Text → Error) (a : Attempt A) → Returns (attempt f a)
attempt-Returns f (done a) = λ p. cc
attempt-Returns f (failed e) = λ p. cc

module _ (crates : Crates) where
  pub validate_uri-Returns : (v : Text) → Returns (validate_uri crates v)
  unfolding validate_uri
  validate_uri-Returns v = ground arith

  pub parse_timestamp-Returns : (v : Text) → Returns (parse_timestamp crates v)
  unfolding parse_timestamp
  parse_timestamp-Returns v = ground arith

  pub decode_signature_b64-Returns : (s : Text) → Returns (decode_signature_b64 crates s)
  unfolding decode_signature_b64
  decode_signature_b64-Returns s = ground arith

  pub verify-Returns : (k m : Bytes) (s : Text) → Returns (Keys.verify crates k m s)
  unfolding Keys.verify
  verify-Returns k m s = ground (arith, decode_signature_b64-Returns s)

  pub reject_duplicate_keys-Returns : (raw : Bytes) → Returns (reject_duplicate_keys crates raw)
  unfolding reject_duplicate_keys
  reject_duplicate_keys-Returns raw = ground (arith, any_value-Returns (crates.read raw).0)

  pub signing_bytes-Returns : (raw : Bytes) → Returns (signing_bytes crates raw)
  unfolding signing_bytes
  signing_bytes-Returns raw = ground (arith, reject_duplicate_keys-Returns raw)

abbrev into_key : Attempt Bytes → Result Bytes
into_key a = do bytes ← attempt (λ e. malformed (foreign e)) a; expect (exactly 32 bytes)

into_key-Returns :
    (a : Attempt Bytes) → ((bs : Bytes) → a ≡ done bs → length bs ≡ 32) → Returns (into_key a)
unfolding exactly
into_key-Returns (done bs) h = ground (arith, h bs refl)
into_key-Returns (failed e) h = λ p. cc

-- Sixty-four checked digits decode to thirty-two bytes.
pub parse_operator_key-Returns :
    (crates : Crates) → HexLaws crates → (v : Text) → Returns (parse_operator_key crates v)
unfolding parse_operator_key
parse_operator_key-Returns crates laws v =
    Returns-bind (ok_or (strip_prefix key_scheme v) _) _ (Returns-ok_or _ _) λ t _.
      Returns-bind
        (fail_if (not (length t == 64) || not (all is_lower_hex t)) (malformed operator_key_hex))
        (λ _. into_key (crates.hex_decode t)) (Returns-fail_if _ _)
        λ _ checked.
          into_key-Returns (crates.hex_decode t) λ bs d. ground (arith, laws.length-decode t bs d)

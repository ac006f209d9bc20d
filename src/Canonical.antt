-- ===== src/Canonical.antt =====
-- src/canonical.rs: canonical signing bytes.
pub mod Exact
pub mod Unique
use onym_discovery.Prelude.{contains, Text, Bytes, text, Option, none, some, List, [], ◌∷◌}
use onym_discovery.Error.{
  malformed, internal, invalid_json, malformed_json, duplicate_key, not_an_object, reserialize,
  serialize,
}
use onym_discovery.Result.{Result, ok, err, ◌>>=◌, ◌>>◌, fail_if, ok_or}
use onym_discovery.Json.{
  Value, object, Members, Stream, visit_seq, visit_map, broken, Elements, end_seq, next_element,
  broken_seq, Entries, end_map, next_entry, broken_map, as_object,
}
use onym_discovery.Json
use onym_discovery.Crates.{Crates, attempt, parse_value}

abbrev pub signature_field : Text
unfolding text
signature_field = text "signature"

-- `AnyVisitor`: it walks the events and fails at the first key that its object already had.
unfoldable mutual
  pub any_value : Stream → Result (Unit {0})
  any_value (visit_seq els) = any_elements els
  any_value (visit_map es) = any_entries [] es
  any_value (broken e) = err (malformed (invalid_json e))
  any_value _ = ok tt

  -- `visit_seq`
  pub any_elements : Elements → Result (Unit {0})
  any_elements end_seq = ok tt
  any_elements (next_element s els) = any_value s >>= λ _. any_elements els
  any_elements (broken_seq e) = err (malformed (invalid_json e))

  -- `visit_map`
  pub any_entries : List Text → Entries → Result (Unit {0})
  any_entries seen end_map = ok tt
  any_entries seen (next_entry k s es) =
      fail_if (contains seen k) (malformed (duplicate_key k)) >>= λ _.
      any_value s >>= λ _. any_entries (k ∷ seen) es
  any_entries seen (broken_map e) = err (malformed (invalid_json e))

-- `Deserializer::end`
abbrev pub at_end : Option Text → Result (Unit {0})
at_end none = ok tt
at_end (some e) = err (malformed (invalid_json e))

abbrev pub remove_all : List Text → Members → Members
remove_all [] ms = ms
remove_all (k ∷ ks) ms = remove_all ks (Json.remove k ms)

module _ (crates : Crates) where
  open crates use {read, to_vec}

  unfoldable pub reject_duplicate_keys : Bytes → Result (Unit {0})
  reject_duplicate_keys raw = let (s, rest) = read raw in any_value s >> at_end rest

  unfoldable pub canonical_bytes : Bytes → List Text → Result Bytes
  canonical_bytes raw omit = do
    reject_duplicate_keys raw
    value ← attempt (λ e. malformed (malformed_json e)) (parse_value crates raw)
    members ← ok_or (as_object value) (malformed not_an_object)
    attempt (λ e. internal (reserialize e)) (to_vec (object (remove_all omit members)))

  unfoldable pub signing_bytes : Bytes → Result Bytes
  unfolding canonical_bytes
  signing_bytes raw = canonical_bytes raw (signature_field ∷ [])

  unfoldable pub to_canonical_vec : Value → Result Bytes
  to_canonical_vec value = attempt (λ e. internal (serialize e)) (to_vec value)

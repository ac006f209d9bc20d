-- ===== src/Crates/Laws.antt =====
-- What the properties rely on of the foreign code, each a documented behaviour of its crate.
use onym_discovery.Prelude.{
  ℕ, ◌*◌, ◌-◌, ◌%◌, ◌≤◌, ◌≡◌, Text, Bytes, true, none, some, length, all, ltb, Bool, ◌&&◌, not,
  ◌==◌,
}
use onym_discovery.Json.{Value, events}
use onym_discovery.Json.Regular.{Regular}
use onym_discovery.Types.Fields.{is_lower_hex, ends_with_z}
use onym_discovery.Crates.{Crates, done}

abbrev pub IsBytes : Bytes → Type 0
IsBytes bs = all (λ b. ltb b 256) bs ≡ true

-- `hex::decode` gives one byte for two characters.
pub record HexLaws (crates : Crates) : Type 0 where
  pub length-decode :
      (s : Text) (bs : Bytes) → crates.hex_decode s ≡ done bs → length s ≡ 2 * length bs

-- `Deserializer` stops at 128 open arrays and objects.
abbrev pub max_depth : ℕ
max_depth = 127

-- `serde_json` reads back what it has written, for a tree without floats that is not too deep, and
-- a `Value` has the keys of its maps in order.
pub record JsonLaws (crates : Crates) : Type 0 where
  pub read-to_vec :
      (v : Value) (raw : Bytes)
      → Regular max_depth v
      → crates.to_vec v ≡ done raw
      → crates.read raw ≡ (events v, none)
  pub collect-events : (v : Value) → Regular max_depth v → crates.collect (events v) ≡ done v

-- `hex::encode` writes two lowercase digits for each byte; a key has 32 bytes and a signature 64, in
-- base64 and back; what a key signs verifies under its public key.
pub record KeyLaws (crates : Crates) : Type 0 where
  pub hex_digits :
      (key : Bytes) → all is_lower_hex (crates.hex_encode (crates.verifying_key key)) ≡ true
  pub hex_length : (key : Bytes) → length (crates.hex_encode (crates.verifying_key key)) ≡ 64
  pub hex_decode-encode :
      (key : Bytes)
      → crates.hex_decode (crates.hex_encode (crates.verifying_key key))
        ≡ done (crates.verifying_key key)
  pub key_length : (key : Bytes) → length (crates.verifying_key key) ≡ 32
  pub signature_length : (key message : Bytes) → length (crates.ed25519_sign key message) ≡ 64
  pub signature_bytes : (key message : Bytes) → IsBytes (crates.ed25519_sign key message)
  pub base64_decode-encode :
      (bs : Bytes) → IsBytes bs → crates.base64_decode (crates.base64_encode bs) ≡ done bs
  pub from_bytes-key :
      (key : Bytes)
      → crates.verifying_key_from_bytes (crates.verifying_key key) ≡ done (crates.verifying_key key)
  pub verify-sign :
      (key message : Bytes)
      → crates.ed25519_verify (crates.verifying_key key) message (crates.ed25519_sign key message)
        ≡ true

-- `hex::encode` and `hex::decode` on bytes, and UTF-8 on ASCII.
pub record TextLaws (crates : Crates) : Type 0 where
  pub encode_digits : (bs : Bytes) → IsBytes bs → all is_lower_hex (crates.hex_encode bs) ≡ true
  pub encode_length : (bs : Bytes) → IsBytes bs → length (crates.hex_encode bs) ≡ 2 * length bs
  pub decode-encode : (bs : Bytes) → IsBytes bs → crates.hex_decode (crates.hex_encode bs) ≡ done bs
  pub ascii : (s : Bytes) → all (λ b. ltb b 128) s ≡ true → crates.is_utf8 s ≡ true

-- SHA-256 gives 32 bytes.
pub record DigestLaws (crates : Crates) : Type 0 where
  pub bytes : (bs : Bytes) → IsBytes (crates.sha256 bs)
  pub sized : (bs : Bytes) → length (crates.sha256 bs) ≡ 32

-- `time`: an instant without its part of a second, and RFC 3339 of an instant of UTC, which ends in
-- `Z` and is read back.
abbrev pub second : ℕ
second = 1_000_000_000

pub record TimeLaws (crates : Crates) : Type 0 where
  pub whole_second :
      (t : ℕ) → t ≤ crates.last_instant → crates.replace_millisecond t 0 ≡ some (t - t % second)
  pub format-ends : (t : ℕ) (s : Text) → crates.format_rfc3339 t ≡ some s → ends_with_z s ≡ true
  pub parse-format :
      (t : ℕ) (s : Text) → crates.format_rfc3339 t ≡ some s → crates.parse_rfc3339 s ≡ done t

-- Base64 of bytes is ASCII without line ends.
abbrev pub is_base64_byte : ℕ → Bool
is_base64_byte b = ltb b 128 && (not (b == 13) && not (b == 10))

pub record Base64Laws (crates : Crates) : Type 0 where
  pub encode_plain : (bs : Bytes) → IsBytes bs → all is_base64_byte (crates.base64_encode bs) ≡ true

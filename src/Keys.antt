-- ===== src/Keys.antt =====
-- src/keys.rs: operator keys and signatures.
pub mod Seed
pub mod Trim
use onym_discovery.Prelude.{
  ℕ, ◌+◌, ◌-◌, ◌/◌, ◌%◌, Text, Bytes, text, List, [], ◌∷◌, ◌++◌, map, ltb, if◌then◌else◌, zero, suc,
}
use onym_discovery.Error.{
  malformed, seed_hex, seed_length, signature_base64, signature_length, public_key,
  signature_failed,
}
use onym_discovery.Result.{Result, ok, err, ◌>>=◌, ◌>>◌, guard, ok_or}
use onym_discovery.Crates.{Crates, Attempt, done, failed, attempt}
use onym_discovery.Types.Fields.{key_scheme, exactly}
use Trim.{trim}

-- `{b:02x}`
hex_digit : ℕ → ℕ
hex_digit n = if ltb n 10 then b'0' + n else b'a' + (n - 10)

unfoldable pub hex_byte : ℕ → Text
unfolding hex_digit
hex_byte b = hex_digit (b / 16) ∷ hex_digit (b % 16) ∷ []

-- `[T]::join(":")`
unfoldable pub join_colon : List Text → Text
join_colon [] = []
join_colon (s ∷ []) = s
join_colon (s ∷ t ∷ ss) = s ++ b':' ∷ join_colon (t ∷ ss)

take_bytes : ℕ → Bytes → Bytes
take_bytes zero bs = []
take_bytes (suc n) [] = []
take_bytes (suc n) (b ∷ bs) = b ∷ take_bytes n bs

-- `OsRng.fill_bytes` on 32 zero bytes: the parameter is what it leaves in so many bytes.
unfoldable pub generate_seed : (ℕ → Bytes) → Bytes
generate_seed fill_bytes = fill_bytes 32

module _ (crates : Crates) where
  open crates use {
    sha256, hex_encode, hex_decode, base64_encode, base64_decode, base64_decode_no_pad,
    verifying_key_from_bytes, ed25519_sign, ed25519_verify,
  }

  -- A `SigningKey` is its 32-byte seed.
  unfoldable pub signing_key_from_seed_hex : Text → Result Bytes
  unfolding trim exactly
  signing_key_from_seed_hex seed = do
    bytes ← attempt (λ e. malformed (seed_hex e)) (hex_decode (trim seed))
    ok_or (exactly 32 bytes) (malformed seed_length)

  unfoldable pub operator_id : Bytes → Text
  operator_id key = key_scheme ++ hex_encode key

  unfoldable pub fingerprint : Bytes → Text
  unfolding join_colon hex_byte take_bytes
  fingerprint key = join_colon (map hex_byte (take_bytes 8 (sha256 key)))

  unfoldable pub sign : Bytes → Bytes → Text
  sign key message = base64_encode (ed25519_sign key message)

  or_else : Attempt Bytes → Attempt Bytes → Attempt Bytes
  or_else (done a) b = done a
  or_else (failed e) b = b

  unfoldable pub decode_signature_b64 : Text → Result Bytes
  unfolding or_else exactly
  decode_signature_b64 s = do
    raw ←
        attempt (λ e. malformed (signature_base64 e))
          (or_else (base64_decode s) (base64_decode_no_pad s))
    ok_or (exactly 64 raw) (malformed signature_length)

  unfoldable pub verify : Bytes → Bytes → Text → Result (Unit {0})
  verify key_bytes message signature = do
    key ← attempt (λ e. malformed (public_key e)) (verifying_key_from_bytes key_bytes)
    sig_bytes ← decode_signature_b64 signature
    guard (ed25519_verify key message sig_bytes) (malformed signature_failed)

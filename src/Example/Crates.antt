-- ===== src/Example/Crates.antt =====
-- A stand-in for the foreign code: real hexadecimal digits, and for the rest the simplest functions
-- that keep the laws.
use onym_discovery.Prelude.{
  ℕ, zero, suc, ◌+◌, ◌-◌, ◌*◌, ◌%◌, Text, Bytes, text, true, none, some, [], ◌∷◌, ◌++◌, length,
  if◌then◌else◌, ◌==◌, ◌=ᵗ◌, strip_prefix, ltb, ◌≡◌, ◌<◌, refl, ap, ◌∙◌, all, length-append,
  =ᵗ_refl, arith,
}
use onym_discovery.Crates.{Crates, Attempt, done, failed, Url, domain}
use onym_discovery.Crates.Laws.{
  HexLaws, JsonLaws, KeyLaws, TextLaws, DigestLaws, TimeLaws, Base64Laws, is_base64_byte, IsBytes,
  max_depth, second,
}
use onym_discovery.Types.Fields.{is_lower_hex, ends_with_z}
use onym_discovery.Example.Codec.Faithful
use onym_discovery.Example.Codec.Ordered
use onym_discovery.Keys.{hex_byte}
use onym_discovery.Types.Uri.{authority}
use onym_discovery.Example.Codec

abbrev none_such : Url
none_such = record {
  scheme = [];
  host = none;
  username = [];
  password = none;
  query = none;
  fragment = none;
  port = none;
}

-- `https://` and a host, nothing else taken apart.
url_parse : Text → Attempt Url
url_parse s = elim (strip_prefix (text "https://") s) [
  | none ↦ failed []
  | some rest ↦
      done (record none_such { scheme = text "https"; host = some (domain (authority rest)) })
]

-- An instant is written as one unit and `Z`.
parse_instant : Text → Attempt ℕ
parse_instant (t ∷ z ∷ []) = if z == b'Z' then done t else failed []
parse_instant _ = failed []

byte_sum : Bytes → ℕ
byte_sum [] = 0
byte_sum (b ∷ bs) = b + 3 * byte_sum bs

replicate : ℕ → ℕ → Bytes
replicate zero b = []
replicate (suc n) b = b ∷ replicate n b

digest : Bytes → Bytes
digest bs = replicate 32 (byte_sum bs % 256)

hex_encode : Bytes → Text
hex_encode [] = []
hex_encode (b ∷ bs) = hex_byte b ++ hex_encode bs

digit_value : ℕ → ℕ
digit_value c = if ltb c b'a' then c - b'0' else c - b'a' + 10

prepend : ℕ → Attempt Bytes → Attempt Bytes
prepend b (done bs) = done (b ∷ bs)
prepend b (failed e) = failed e

hex_decode : Text → Attempt Bytes
hex_decode [] = done []
hex_decode (c ∷ []) = failed []
hex_decode (c ∷ d ∷ s) = prepend (16 * digit_value c + digit_value d) (hex_decode s)

pub crates : Crates
crates = record {
  url_parse = url_parse;
  last_instant = 1_000_000_000_000_000_000_000;
  parse_rfc3339 = parse_instant;
  replace_millisecond = λ t _. some (t - t % second);
  format_rfc3339 = λ t. some (t ∷ b'Z' ∷ []);
  sha256 = digest;
  hex_encode = hex_encode;
  hex_decode = hex_decode;
  base64_encode = hex_encode;
  base64_decode = hex_decode;
  base64_decode_no_pad = hex_decode;
  verifying_key = digest;
  verifying_key_from_bytes = λ k. done k;
  ed25519_sign = λ k m. digest k ++ digest m;
  ed25519_verify = λ k m sig. sig =ᵗ k ++ digest m;
  read = Codec.read;
  collect = Codec.collect;
  to_vec = λ v. done (Codec.encode v);
  is_utf8 = λ _. true;
}

length-hex_decode : (s : Text) (bs : Bytes) → hex_decode s ≡ done bs → length s ≡ 2 * length bs
unfolding hex_decode prepend
length-hex_decode [] bs h = ground arith
length-hex_decode (c ∷ []) bs h = cc
length-hex_decode (c ∷ d ∷ s) [] h = ground arith
length-hex_decode (c ∷ d ∷ s) (b ∷ bs) h = ground (arith, length-hex_decode s bs)

pub hex_laws : HexLaws crates
unfolding crates
hex_laws = record { length-decode = length-hex_decode }

pub json_laws : JsonLaws crates
unfolding crates
json_laws = record {
  read-to_vec = λ v raw r e. ground (arith, e) ∙ Faithful.read-encode v;
  collect-events = λ v r. Ordered.collect-events max_depth v r;
}

length-replicate : (n b : ℕ) → length (replicate n b) ≡ n
unfolding replicate
length-replicate zero b = refl
length-replicate (suc n) b = ap suc (length-replicate n b)

-- A byte's two digits, and the byte again.
hex_byte-digits : (b : ℕ) → b < 256 → all is_lower_hex (hex_byte b) ≡ true
unfolding hex_byte is_lower_hex
hex_byte-digits b h = ground arith

hex_decode-hex_byte :
    (b : ℕ) (s : Text) → b < 256 → hex_decode (hex_byte b ++ s) ≡ prepend b (hex_decode s)
unfolding hex_byte hex_decode digit_value
hex_decode-hex_byte b s h = ap (λ x. prepend x (hex_decode s)) (ground arith)

hex_encode-digits : (n b : ℕ) → b < 256 → all is_lower_hex (hex_encode (replicate n b)) ≡ true
unfolding hex_encode replicate hex_byte
hex_encode-digits zero b h = refl
hex_encode-digits (suc n) b h = ground (arith, hex_byte-digits b h, hex_encode-digits n b h)

hex_decode-encode :
    (n b : ℕ) → b < 256 → hex_decode (hex_encode (replicate n b)) ≡ done (replicate n b)
unfolding hex_encode replicate hex_decode prepend
hex_decode-encode zero b h = refl
hex_decode-encode (suc n) b h =
    hex_decode-hex_byte b (hex_encode (replicate n b)) h ∙ ap (prepend b) (hex_decode-encode n b h)

length-hex_encode : (bs : Bytes) → length (hex_encode bs) ≡ 2 * length bs
unfolding hex_encode hex_byte
length-hex_encode [] = refl
length-hex_encode (b ∷ bs) = omega (arith, length-hex_encode bs)

byte_bound : (n : ℕ) → n % 256 < 256
byte_bound n = omega arith

encode-digits : (bs : Bytes) → IsBytes bs → all is_lower_hex (hex_encode bs) ≡ true
unfolding hex_encode hex_byte
encode-digits [] h = refl
encode-digits (b ∷ bs) h =
    let small : b < 256 = ground (arith, h) in
    ground (arith, hex_byte-digits b small, encode-digits bs)

decode-encode : (bs : Bytes) → IsBytes bs → hex_decode (hex_encode bs) ≡ done bs
unfolding hex_encode hex_decode prepend
decode-encode [] h = refl
decode-encode (b ∷ bs) h =
    hex_decode-hex_byte b (hex_encode bs) (ground (arith, h))
    ∙ ap (prepend b) (decode-encode bs (ground (arith, h)))

IsBytes-replicate : (n b : ℕ) → b < 256 → IsBytes (replicate n b)
unfolding replicate
IsBytes-replicate zero b h = refl
IsBytes-replicate (suc n) b h = ground (arith, IsBytes-replicate n b h)

IsBytes-digest : (bs : Bytes) → IsBytes (digest bs)
unfolding digest
IsBytes-digest bs = IsBytes-replicate 32 (byte_sum bs % 256) (byte_bound (byte_sum bs))

IsBytes-append : (s t : Bytes) → IsBytes s → IsBytes t → IsBytes (s ++ t)
IsBytes-append [] t h k = k
IsBytes-append (b ∷ s) t h k = ground (arith, h, IsBytes-append s t)

pub key_laws : KeyLaws crates
unfolding crates digest
key_laws = record {
  hex_digits = λ key. hex_encode-digits 32 (byte_sum key % 256) (byte_bound (byte_sum key));
  hex_length = λ key.
      length-hex_encode (digest key) ∙ ap (λ n. 2 * n) (length-replicate 32 (byte_sum key % 256));
  hex_decode-encode = λ key. hex_decode-encode 32 (byte_sum key % 256) (byte_bound (byte_sum key));
  key_length = λ key. length-replicate 32 (byte_sum key % 256);
  signature_length = λ key message.
      length-append (digest key) (digest message)
      ∙ omega (
        arith,
        length-replicate 32 (byte_sum key % 256),
        length-replicate 32 (byte_sum message % 256),
      );
  signature_bytes = λ key message.
      IsBytes-append (digest key) (digest message) (IsBytes-digest key) (IsBytes-digest message);
  base64_decode-encode = decode-encode;
  from_bytes-key = λ key. refl;
  verify-sign = λ key message. =ᵗ_refl (digest key ++ digest message);
}

pub text_laws : TextLaws crates
unfolding crates
text_laws = record {
  encode_digits = encode-digits;
  encode_length = λ bs h. length-hex_encode bs;
  decode-encode = decode-encode;
  ascii = λ s h. refl;
}

pub digest_laws : DigestLaws crates
unfolding crates digest
digest_laws = record {
  bytes = IsBytes-digest;
  sized = λ bs. length-replicate 32 (byte_sum bs % 256);
}

pub time_laws : TimeLaws crates
unfolding crates parse_instant ends_with_z
time_laws = record {
  whole_second = λ t h. refl;
  format-ends = λ t s h. ground (arith, h);
  parse-format = λ t s h. ground (arith, h);
}

plain-digits : (s : Text) → all is_lower_hex s ≡ true → all is_base64_byte s ≡ true
unfolding is_lower_hex
plain-digits [] h = refl
plain-digits (b ∷ s) h = ground (arith, h, plain-digits s)

pub base64_laws : Base64Laws crates
unfolding crates
base64_laws = record { encode_plain = λ bs h. plain-digits (hex_encode bs) (encode-digits bs h) }

-- Everything above, for the `unfolding` line of a test.
unfoldable pub stand_in : Unit {0}
unfolding crates url_parse parse_instant digest byte_sum replicate hex_encode hex_byte hex_decode
    digit_value prepend strip_prefix authority text Codec.codec ◌=ᵗ◌
stand_in = tt

-- ===== src/Crates.antt =====
-- The foreign code that the program calls, as the parameter of the model: one field for each
-- function, over bytes, texts and numbers. What a property relies on beyond the types is a record
-- of named laws, in the children.
pub mod Laws
use onym_discovery.Prelude.{ℕ, ◌+◌, Text, Bytes, Bool, Option, none, some, leb, if◌then◌else◌, []}
use onym_discovery.Error.{Error}
use onym_discovery.Result.{Result, ok, err, panic}
use onym_discovery.Json.{Value, Stream}

-- A foreign `Result`, with the text of the failure.
pub data Attempt {ℓ} (A : Type ℓ) : Type ℓ where
  done : A → Attempt A
  failed : Text → Attempt A

-- `foreign_call(…).map_err(wrap)`
abbrev pub attempt {ℓ} : {A : Type ℓ} → (Text → Error) → Attempt A → Result A
attempt wrap (done a) = ok a
attempt wrap (failed e) = err (wrap e)

-- `url::Host`
pub data Host : Type 0 where
  domain : Text → Host
  ipv4 ipv6 : ℕ → Host

-- `url::Url`, through its accessors
pub record Url : Type 0 where
  pub scheme : Text
  pub host : Option Host
  pub username : Text
  pub password : Option Text
  pub query : Option Text
  pub fragment : Option Text
  pub port : Option ℕ

pub record Crates : Type 0 where
  -- `Url::parse`
  pub url_parse : Text → Attempt Url
  -- `OffsetDateTime`: the nanoseconds since the first instant that it represents; the last one.
  pub last_instant : ℕ
  pub parse_rfc3339 : Text → Attempt ℕ
  pub replace_millisecond : ℕ → ℕ → Option ℕ
  pub format_rfc3339 : ℕ → Option Text
  -- `Sha256::digest`, the crates `hex` and `base64`
  pub sha256 : Bytes → Bytes
  pub hex_encode : Bytes → Text
  pub hex_decode : Text → Attempt Bytes
  pub base64_encode : Bytes → Text
  pub base64_decode : Text → Attempt Bytes
  pub base64_decode_no_pad : Text → Attempt Bytes
  -- `ed25519_dalek`: a key is known by its 32 bytes.
  pub verifying_key : Bytes → Bytes
  pub verifying_key_from_bytes : Bytes → Attempt Bytes
  pub ed25519_sign : Bytes → Bytes → Bytes
  pub ed25519_verify : Bytes → Bytes → Bytes → Bool
  -- `serde_json`: the events of a byte string with the complaint of `Deserializer::end` behind
  -- them, the tree that `Value` makes of events, and `to_vec`.
  pub read : Bytes → Stream × Option Text
  pub collect : Stream → Attempt Value
  pub to_vec : Value → Attempt Bytes
  -- `std::str::from_utf8`
  pub is_utf8 : Bytes → Bool

module _ (crates : Crates) where
  open crates use {last_instant, read, collect}

  -- `instant + duration` panics where the sum is out of range.
  unfoldable pub add_duration : ℕ → ℕ → Result ℕ
  add_duration t d = if leb (t + d) last_instant then ok (t + d) else panic

  abbrev finish {ℓ} : {A : Type ℓ} → Option Text → Attempt A → Attempt A
  finish rest (failed e) = failed e
  finish none (done a) = done a
  finish (some e) (done a) = failed e

  -- `serde_json::from_slice::<T>`: the visitor of `T` reads the events, then the text must end.
  unfoldable pub from_slice {ℓ} : {A : Type ℓ} → (Stream → Attempt A) → Bytes → Attempt A
  from_slice visitor raw = let (s, rest) = read raw in finish rest (visitor s)

  -- `serde_json::from_slice::<Value>`
  abbrev pub parse_value : Bytes → Attempt Value
  parse_value = from_slice collect

-- A visitor whose reason to refuse is not kept.
abbrev pub decoded {ℓ} : {A : Type ℓ} → Option A → Attempt A
decoded none = failed []
decoded (some a) = done a

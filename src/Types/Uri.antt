-- ===== src/Types/Uri.antt =====
-- src/types.rs: `validate_uri`, the checks of the parsed URL and those of the raw text.
pub mod Plain
use onym_discovery.Prelude.{
  ℕ, Text, Bool, true, false, not, ◌||◌, Option, none, some, is_empty, any, ◌==◌, ◌=ᵗ◌, text,
  strip_prefix, if◌then◌else◌, [], ◌∷◌,
}
use onym_discovery.Error.{
  malformed, uri_parse, uri_scheme, uri_host, uri_userinfo, uri_query_fragment, uri_port,
  uri_no_authority, uri_raw_userinfo, uri_raw_port,
}
use onym_discovery.Result.{Result, ◌>>=◌, ◌>>◌, fail_if, guard, ok_or}
use onym_discovery.Crates.{Crates, attempt, Host, domain}

abbrev pub https : Text
unfolding text
https = text "https"

abbrev pub authority_mark : Text
unfolding text
authority_mark = text "://"

unfoldable pub is_some {ℓ} : {A : Type ℓ} → Option A → Bool
is_some none = false
is_some (some _) = true

unfoldable pub is_dns_name : Option Host → Bool
is_dns_name (some (domain _)) = true
is_dns_name _ = false

-- What stands behind the first `://`: `value[value.find("://")? + 3..]`.
unfoldable pub after_mark : Text → Option Text
after_mark [] = none
after_mark (b ∷ s) = elim (strip_prefix authority_mark (b ∷ s)) [
  | some rest ↦ some rest
  | none ↦ after_mark s
]

-- The bytes that end an authority.
unfoldable pub ends_authority : ℕ → Bool
ends_authority b = b == b'/' || b == b'?' || b == b'#'

-- The text up to the first of them, or to the end.
unfoldable pub authority : Text → Text
authority [] = []
authority (b ∷ s) = if ends_authority b then [] else b ∷ authority s

module _ (crates : Crates) where
  open crates use {url_parse}

  unfoldable pub validate_uri : Text → Result (Unit {0})
  validate_uri value = do
    url ← attempt (λ e. malformed (uri_parse value e)) (url_parse value)
    guard (url.scheme =ᵗ https) (malformed (uri_scheme value))
    guard (is_dns_name url.host) (malformed (uri_host value))
    fail_if (not (is_empty url.username) || is_some url.password) (malformed (uri_userinfo value))
    fail_if (is_some url.query || is_some url.fragment) (malformed (uri_query_fragment value))
    fail_if (is_some url.port) (malformed (uri_port value))
    rest ← ok_or (after_mark value) (malformed (uri_no_authority value))
    fail_if (any (λ b. b == b'@') (authority rest)) (malformed (uri_raw_userinfo value))
    fail_if (any (λ b. b == b':') (authority rest)) (malformed (uri_raw_port value))

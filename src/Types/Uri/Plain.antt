-- ===== src/Types/Uri/Plain.antt =====
-- src/types.rs, `validate_uri`: the form of what it accepts.
use onym_discovery.Prelude.{
  ℕ, ◌≡◌, ◌≢◌, ◌≤◌, ◌⊎◌, ◌↔◌, length, All, text, inl, inr, refl, ap, ◌∙◌, Text, true, false, not,
  ◌==◌, ◌=ᵗ◌, =ᵗ_iff, Option, none, some, Option-cases, Bool-cases, [], ◌∷◌, ◌++◌, all, any,
  strip_prefix, strip_prefix_iff, is_empty, arith,
}
use onym_discovery.Result.{ok, >>=-eq-ok}
use onym_discovery.Error.{malformed, uri_parse}
use onym_discovery.Crates.{Crates, done, Url, Host, domain, ipv4, ipv6, attempt}
use onym_discovery.Types.Uri.{
  https, authority_mark, is_some, is_dns_name, after_mark, ends_authority, authority, validate_uri,
}

-- No earlier `://` stands in `s` than the one behind `before`.
abbrev pub IsFirstMark : (s before : Text) → Type 0
IsFirstMark s before =
    (earlier later : Text) → s ≡ earlier ++ (text "://" ++ later) → length before ≤ length earlier

unmarked :
    (b : ℕ) (s before : Text)
    → strip_prefix authority_mark (b ∷ s) ≡ none
    → IsFirstMark s before
    → IsFirstMark (b ∷ s) (b ∷ before)
unfolding text
unmarked b s before none_here first [] later e =
    absurd (ground (arith, none_here, (strip_prefix_iff authority_mark (b ∷ s) later).1 e))
unmarked b s before none_here first (c ∷ earlier) later e =
    omega (arith, first earlier later (ground (arith, e)))

after_mark-split :
    (s rest : Text)
    → after_mark s ≡ some rest
    → (before : Text) × (s ≡ before ++ (text "://" ++ rest)) × IsFirstMark s before
unfolding after_mark text
after_mark-split [] rest h = absurd (ground (arith, h))
after_mark-split (b ∷ s) rest h = elim (Option-cases (strip_prefix authority_mark (b ∷ s))) [
  | inl e ↦
      let (before, f, first) = after_mark-split s rest (ground (arith, e, h)) in
      (b ∷ before, ap (λ t. b ∷ t) f, unmarked b s before e first)
  | inr (t, e) ↦ (
    [],
    (strip_prefix_iff authority_mark (b ∷ s) rest).0 (ground (arith, e, h)),
    λ earlier later f. omega arith,
  )
]

-- A slash, a question mark or a number sign.
abbrev pub IsEnd : ℕ → Type 0
IsEnd b = (b ≡ b'/') ⊎ (b ≡ b'?') ⊎ (b ≡ b'#')

-- What follows an authority: nothing, or a text that begins with one of these.
abbrev pub Ends : Text → Type 0
Ends [] = Unit
Ends (b ∷ s) = IsEnd b

ends_authority_iff : (b : ℕ) → (ends_authority b ≡ true) ↔ IsEnd b
unfolding ends_authority
ends_authority_iff b = ground arith

authority-split : (s : Text) → (rest : Text) × (s ≡ authority s ++ rest) × Ends rest
unfolding authority
authority-split [] = ([], refl, tt)
authority-split (b ∷ s) = elim (Bool-cases (ends_authority b)) [
  | inl e ↦ rw e (b ∷ s, refl, (ends_authority_iff b).0 e)
  | inr e ↦ let (rest, f, g) = authority-split s in rw e (rest, ap (λ t. b ∷ t) f, g)
]

authority-inside : (s : Text) → all (λ b. not (ends_authority b)) (authority s) ≡ true
unfolding authority
authority-inside [] = refl
authority-inside (b ∷ s) = ground (arith, authority-inside s)

-- A byte of a host's name in the raw text: it ends no authority, and marks no user and no port.
abbrev pub IsHostByte : ℕ → Type 0
IsHostByte b = ¬ IsEnd b × (b ≢ b'@') × (b ≢ b':')

host_byte :
    (b : ℕ) → ends_authority b ≡ false → (b == b'@') ≡ false → (b == b':') ≡ false → IsHostByte b
host_byte b h k l = (
  (λ e. cc (h, (ends_authority_iff b).1 e)),
  (λ e. absurd (ground (arith, k, e))),
  λ e. absurd (ground (arith, l, e)),
)

plain_host :
    (s : Text)
    → all (λ b. not (ends_authority b)) s ≡ true
    → any (λ b. b == b'@') s ≡ false
    → any (λ b. b == b':') s ≡ false
    → All IsHostByte s
plain_host [] h k l = tt
plain_host (b ∷ s) h k l = (
  host_byte b (ground (arith, h)) (ground (arith, k)) (ground (arith, l)),
  plain_host s (ground (arith, h)) (ground (arith, k)) (ground (arith, l)),
)

-- What the parser says of an accepted URI, and how its text is made.
pub record IsPlainUri (crates : Crates) (value : Text) : Type 0 where
  pub url : Url
  pub parsed : crates.url_parse value ≡ done url
  pub scheme : url.scheme ≡ text "https"
  pub name : Text
  pub host : url.host ≡ some (domain name)
  pub username : url.username ≡ []
  pub password : url.password ≡ none
  pub query : url.query ≡ none
  pub fragment : url.fragment ≡ none
  pub port : url.port ≡ none
  pub before : Text
  pub raw_host : Text
  pub rest : Text
  pub made : value ≡ before ++ (text "://" ++ (raw_host ++ rest))
  pub first : IsFirstMark value before
  pub plain : All IsHostByte raw_host
  pub ends : Ends rest

dns_name : (o : Option Host) → is_dns_name o ≡ true → (name : Text) × (o ≡ some (domain name))
unfolding is_dns_name
dns_name none h = absurd (ground (arith, h))
dns_name (some (domain n)) h = (n, refl)
dns_name (some (ipv4 n)) h = absurd (ground (arith, h))
dns_name (some (ipv6 n)) h = absurd (ground (arith, h))

none_of : (o : Option Text) → is_some o ≡ false → o ≡ none
unfolding is_some
none_of none h = refl
none_of (some t) h = absurd (ground (arith, h))

no_port : (o : Option ℕ) → is_some o ≡ false → o ≡ none
unfolding is_some
no_port none h = refl
no_port (some n) h = absurd (ground (arith, h))

empty_of : (t : Text) → is_empty t ≡ true → t ≡ []
empty_of [] h = refl
empty_of (b ∷ t) h = absurd (ground (arith, h))

module _ (crates : Crates) (value : Text) (url : Url)
    (parsed : crates.url_parse value ≡ done url) where
  marked : validate_uri crates value ≡ ok tt → (rest : Text) × (after_mark value ≡ some rest)
  unfolding validate_uri
  marked h = elim (Option-cases (after_mark value)) [
    | inl e ↦ absurd (ground (arith, e, h, parsed))
    | inr (rest, e) ↦ (rest, e)
  ]

  checks :
      (rest : Text)
      → after_mark value ≡ some rest
      → validate_uri crates value ≡ ok tt
      → (url.scheme =ᵗ https ≡ true)
        × (is_dns_name url.host ≡ true)
        × (is_empty url.username ≡ true)
        × (is_some url.password ≡ false)
        × (is_some url.query ≡ false)
        × (is_some url.fragment ≡ false)
        × (is_some url.port ≡ false)
        × (any (λ b. b == b'@') (authority rest) ≡ false)
        × (any (λ b. b == b':') (authority rest) ≡ false)
  unfolding validate_uri
  checks rest e h = ground (arith, e, h, parsed)

url_parsed :
    (crates : Crates) (value : Text)
    → validate_uri crates value ≡ ok tt
    → (url : Url) × (crates.url_parse value ≡ done url)
unfolding validate_uri
url_parsed crates value h =
    let (url, e, _) =
      >>=-eq-ok (attempt (λ e. malformed (uri_parse value e)) (crates.url_parse value)) _ h in
    (url, ground (arith, e))

-- A URI that `validate_uri` accepts is one that the parser takes as https with a DNS name and with no
-- user, password, query, fragment or port, and its raw text has, between its first `://` and the next
-- slash, question mark or number sign, or its end, neither an `@` nor a colon, not even one that the
-- parser drops.
pub validate_uri-IsPlainUri :
    (crates : Crates) (value : Text) → validate_uri crates value ≡ ok tt → IsPlainUri crates value
unfolding text
validate_uri-IsPlainUri crates value h =
    let (url, parsed) = url_parsed crates value h in
    let (rest, mark) = marked crates value url parsed h in
    let (scheme, dns, user, password, query, fragment, port, no_at, no_colon) =
      checks crates value url parsed rest mark h in
    let (name, host) = dns_name url.host dns in
    let (before, made, first) = after_mark-split value rest mark in
    let (tail, split, ends) = authority-split rest in
    record {
      url = url;
      parsed = parsed;
      scheme = (=ᵗ_iff url.scheme https).0 scheme;
      name = name;
      host = host;
      username = empty_of url.username user;
      password = none_of url.password password;
      query = none_of url.query query;
      fragment = none_of url.fragment fragment;
      port = no_port url.port port;
      before = before;
      raw_host = authority rest;
      rest = tail;
      made = made ∙ ap (λ t. before ++ (authority_mark ++ t)) split;
      first = first;
      plain = plain_host (authority rest) (authority-inside rest) no_at no_colon;
      ends = ends;
    }

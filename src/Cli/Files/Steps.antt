-- ===== src/Cli/Files/Steps.antt =====
-- src/main.rs: what is known behind `moment` and `load_key`, where they return.
use onym_discovery.Prelude.{
  Text, Bytes, ℕ, Option, none, some, true, ◌≡◌, subst, ◌∙◌, inl, inr, Bool-cases, arith,
}
use onym_discovery.Result.{ok}
use onym_discovery.Crates.{Crates}
use onym_discovery.Types.Fields.{parse_timestamp}
use onym_discovery.Keys.{signing_key_from_seed_hex}
use onym_discovery.Cli.Host.{Host, contents}
use onym_discovery.Cli.Run.{returned, World, Run, ◌>>=◌}
use onym_discovery.Cli.Run.Returned.{>>=-returned, lift-bind, read_path-bind, lift-returned}
use onym_discovery.Cli.Files.{moment, as_text, load_key}

module _ (crates : Crates) (H : Host) where
  -- The moment at which a command judges: the one given, or now.
  pub data IsMoment : Option Text → ℕ → Type 0 where
    at_now : IsMoment none H.now_utc
    at_given :
        (value : Text) (now : ℕ) → parse_timestamp crates value ≡ ok now → IsMoment (some value) now

  pub moment-bind :
      {B : Type 0} (at : Option Text) (next : ℕ → Run H B) (w : World H) {b : B} {w' : World H}
      → (moment crates H at >>= next) w ≡ (returned b, w')
      → (now : ℕ) × IsMoment at now × (next now w ≡ (returned b, w'))
  unfolding moment
  moment-bind none next w h = (H.now_utc, at_now, h)
  moment-bind (some value) next w h =
      let (now, e, k) = lift-bind (parse_timestamp crates value) next w h in
      (now, at_given value now e, k)

  -- The key that a seed file holds.
  pub record IsKeyOf (s : H.State) (path : Text) (key : Bytes) : Type 0 where
    pub seed_hex : Bytes
    pub found : H.read s path ≡ contents seed_hex
    pub utf8 : crates.is_utf8 seed_hex ≡ true
    pub parsed : signing_key_from_seed_hex crates seed_hex ≡ ok key

  as_text-returned :
      (path : Text) (bytes : Bytes) (w : World H) {t : Text} {w' : World H}
      → as_text crates H path bytes w ≡ (returned t, w')
      → (crates.is_utf8 bytes ≡ true) × (t ≡ bytes) × (w' ≡ w)
  unfolding as_text
  as_text-returned path bytes w {t} {w'} h = elim (Bool-cases (crates.is_utf8 bytes)) [
    | inl e ↦ (e, ground (arith, e, h), ground (arith, e, h))
    | inr e ↦ absurd (ground (arith, e, h))
  ]

  load_key-returned :
      (path : Text) (w : World H) {key : Bytes} {w' : World H}
      → load_key crates H path w ≡ (returned key, w')
      → IsKeyOf w.disk path key × (w' ≡ w)
  unfolding load_key
  load_key-returned path w {key} {w'} h =
      let (raw, found, h0) = read_path-bind path _ w h in
      let (seed_hex, v, e, h1) = >>=-returned (as_text crates H path raw) _ w h0 in
      let (utf8, same, stay) = as_text-returned path raw w e in
      let (parsed, stay') = lift-returned (signing_key_from_seed_hex crates seed_hex) v h1 in
      (
        record {
          seed_hex = raw;
          found = found;
          utf8 = utf8;
          parsed = subst (λ t. signing_key_from_seed_hex crates t ≡ ok key) same parsed;
        },
        stay' ∙ stay,
      )

  pub load_key-bind :
      {B : Type 0} (path : Text) (next : Bytes → Run H B) (w : World H) {b : B} {w' : World H}
      → (load_key crates H path >>= next) w ≡ (returned b, w')
      → (key : Bytes) × IsKeyOf w.disk path key × (next key w ≡ (returned b, w'))
  load_key-bind path next w {b} {w'} h =
      let (key, v, e, k) = >>=-returned (load_key crates H path) next w h in
      let (of, stay) = load_key-returned path w e in
      (key, of, subst (λ u. next key u ≡ (returned b, w')) stay k)

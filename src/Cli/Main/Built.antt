-- ===== src/Cli/Main/Built.antt =====
-- src/main.rs, `build-snapshot`: what its success leaves on the disk.
use onym_discovery.Prelude.{
  ap, Text, Bytes, ℕ, Option, none, some, true, false, ◌≡◌, ◌≢◌, refl, sym, subst, ◌∙◌, ◌++◌, ◌∷◌,
  ◌==◌, not, all, arith, all-append, Bool-cases,
}
use onym_discovery.Result.{ok, >>=-eq-ok}
use onym_discovery.Crates.{Crates, Attempt, done, failed, from_slice, decoded}
use onym_discovery.Types.Records.{SnapshotConfig}
use onym_discovery.Types.Document.{config_of}
use onym_discovery.Types.Fields.{validate_catalog_id}
use onym_discovery.Types.Fields.Forms.{IsToken, id_forms}
use onym_discovery.Sign.{detached_signature}
use onym_discovery.Build.{BuiltSnapshot, build_snapshot, check_config}
use onym_discovery.Cli.Host.{Host, IsFileSystem, IsName, contents}
use onym_discovery.Cli.Output.{Line}
use onym_discovery.Cli.Run.{returned, World, Run, ◌>>=◌, print}
use onym_discovery.Cli.Run.Returned.{>>=-returned, lift-bind, read_path-bind, print-returned}
use mathlib.Core.List.{append_assoc}
use onym_discovery.Cli.Names.{retention_name, sig_ending, json_ending, decimal}
use onym_discovery.Cli.Names.Apart.{IsApart}
use onym_discovery.Cli.Files.Steps.{IsMoment, moment-bind, IsKeyOf, load_key-bind}
use onym_discovery.Cli.Main.{
  build, publish, parsed_config, read_optional, read_file, config_dir, main,
}
use onym_discovery.Cli.Main.Published.{IsPublished, publish-IsPublished}

module _ (crates : Crates) (H : Host) where
  pub data IsRead (s : H.State) : Option Text → Option Bytes → Type 0 where
    not_given : IsRead s none none
    given :
        (path : Text) (raw : Bytes) → H.read s path ≡ contents raw → IsRead s (some path) (some raw)

module _ (crates : Crates) (H : Host) (L : IsFileSystem H) where
  -- What a build is made of, and what it leaves.
  pub record IsBuiltFrom (s t : H.State) (seed config : Text) (previous generated_at : Option Text)
      (out : Text) : Type 0 where
    pub key : Bytes
    pub key_of : IsKeyOf crates H s seed key
    pub config_raw : Bytes
    pub config_read : H.read s config ≡ contents config_raw
    pub parsed : SnapshotConfig
    pub config_parsed :
        from_slice crates (λ st. decoded (config_of crates st)) config_raw ≡ done parsed
    pub previous_raw : Option Bytes
    pub previous_read : IsRead crates H s previous previous_raw
    pub now : ℕ
    pub moment_of : IsMoment crates H generated_at now
    pub built : BuiltSnapshot
    pub builds :
        build_snapshot crates
          (read_file crates H s (config_dir crates H config))
          parsed
          previous_raw
          now
          key
        ≡ ok built
    pub sig : Text
    pub detached : detached_signature crates built.bytes ≡ ok sig
    pub published : IsPublished crates H L t out parsed.catalog_id built sig

module _ (crates : Crates) (H : Host) where
  parsed_config-bind :
      {B : Type 0} (path : Text) (c : Attempt SnapshotConfig) (next : SnapshotConfig → Run H B)
      (w : World H) {b : B} {w' : World H}
      → (parsed_config crates H path c >>= next) w ≡ (returned b, w')
      → (config : SnapshotConfig) × (c ≡ done config) × (next config w ≡ (returned b, w'))
  parsed_config-bind path (done c) next w h = (c, refl, h)
  parsed_config-bind path (failed e) next w h = absurd (ground (arith, h))

  read_optional-bind :
      {B : Type 0} (path : Option Text) (next : Option Bytes → Run H B) (w : World H) {b : B}
      {w' : World H}
      → (read_optional crates H path >>= next) w ≡ (returned b, w')
      → (raw : Option Bytes) × IsRead crates H w.disk path raw × (next raw w ≡ (returned b, w'))
  read_optional-bind none next w h = (none, not_given, h)
  read_optional-bind (some path) next w {b} {w'} h =
      let (o, v, e, k) = >>=-returned (read_optional crates H (some path)) next w h in
      let (raw, found, rest) = read_path-bind path _ w e in
      let same : (some raw ≡ o) × (w ≡ v) = ground (arith, rest) in
      (
        some raw,
        given path raw found,
        subst (λ u. next (some raw) u ≡ (returned b, w')) (sym same.1)
            (subst (λ x. next x v ≡ (returned b, w')) (sym same.0) k),
      )

  prints-disk :
      (l m : Line) (w : World H) {w' : World H}
      → (print l >>= λ _. print m) w ≡ (returned tt, w')
      → w'.disk ≡ w.disk
  prints-disk l m w h =
      let (_, v, e, k) = >>=-returned (print l) _ w h in print-returned m v k ∙ print-returned l w e

-- A build's catalog id is a token.
build_snapshot-IsToken :
    (crates : Crates) (read_file : Text → Attempt Bytes) (config : SnapshotConfig)
    (previous : Option Bytes) (now : ℕ) (key : Bytes) (built : BuiltSnapshot)
    → build_snapshot crates read_file config previous now key ≡ ok built
    → IsToken config.catalog_id
unfolding build_snapshot check_config
build_snapshot-IsToken crates read_file config previous now key built h =
    let (_, checked, _) = >>=-eq-ok (check_config config) _ h in
    let (_, valid, _) = >>=-eq-ok (validate_catalog_id config.catalog_id) _ checked in
    (id_forms config.catalog_id).1.0 valid

-- The name of the latest file is no retention sibling's, nor the name of a sibling's signature.
pub record IsLatestName (base : Text) : Type 0 where
  pub is_name : IsName base
  pub not_sibling : (catalog_id : Text) (sequence : ℕ) → base ≢ retention_name catalog_id sequence
  pub not_sibling_sig :
      (catalog_id : Text) (sequence : ℕ) → base ≢ retention_name catalog_id sequence ++ sig_ending

has_dash : (s t : Text) → all (λ b. not (b == b'-')) (s ++ b'-' ∷ t) ≡ false
has_dash s t =
    all-append (λ b. not (b == b'-')) s (b'-' ∷ t)
    ∙ ground (arith, Bool-cases (all (λ b. not (b == b'-')) s))

-- A name without a dash, such as that of a file `all.json`.
pub IsLatestName-no_dash :
    (base : Text) → IsName base → all (λ b. not (b == b'-')) base ≡ true → IsLatestName base
unfolding retention_name
IsLatestName-no_dash base name plain = record {
  is_name = name;
  not_sibling =
      λ c n e. cc (plain, ap (all (λ b. not (b == b'-'))) e, has_dash c (decimal n ++ json_ending));
  not_sibling_sig = λ c n e. cc (
    plain,
    ap (all (λ b. not (b == b'-')))
        (e ∙ append_assoc c (b'-' ∷ decimal n ++ json_ending) sig_ending),
    has_dash c ((decimal n ++ json_ending) ++ sig_ending),
  );
}

-- `build-snapshot` comes to its end only if the library built a snapshot from the files that it was
-- given and at the moment given, and the disk then holds that snapshot and its signature both as
-- the latest files and as the retention sibling of its catalog and sequence. This is where the name
-- of `out` is that of no retention sibling and of no sibling's signature, whatever the catalog and
-- the sequence, and has at least three bytes and no slash, and no link joins files.
pub build-IsBuiltFrom :
    (crates : Crates) (H : Host) (L : IsFileSystem H) (w w' : World H) (seed config : Text)
    (previous generated_at : Option Text) (out base : Text)
    → H.file_name out ≡ some base
    → IsLatestName base
    → main crates H (build seed config previous generated_at out) w ≡ (returned tt, w')
    → IsBuiltFrom crates H L w.disk w'.disk seed config previous generated_at out
unfolding main
build-IsBuiltFrom crates H L w w' seed config previous generated_at out base named latest h =
    let (key, key_of, h0) = load_key-bind crates H seed _ w h in
    let (config_raw, config_read, h1) = read_path-bind config _ w h0 in
    let (parsed, config_parsed, h2) =
      parsed_config-bind crates H config
        (from_slice crates (λ st. decoded (config_of crates st)) config_raw) _ w h1 in
    let (previous_raw, previous_read, h3) = read_optional-bind crates H previous _ w h2 in
    let (now, moment_of, h4) = moment-bind crates H generated_at _ w h3 in
    let files = read_file crates H w.disk (config_dir crates H config) in
    let (built, builds, h5) =
      lift-bind (build_snapshot crates files parsed previous_raw now key) _ w h4 in
    let (sig, detached, h6) = lift-bind (detached_signature crates built.bytes) _ w h5 in
    let (_, v, e, h7) = >>=-returned (publish crates H out parsed.catalog_id built sig) _ w h6 in
    let apart : IsApart H L out base parsed.catalog_id built.sequence = record {
      token = build_snapshot-IsToken crates files parsed previous_raw now key built builds;
      named = named;
      base_name = latest.is_name;
      not_sibling = latest.not_sibling parsed.catalog_id built.sequence;
      not_sibling_sig = latest.not_sibling_sig parsed.catalog_id built.sequence;
    } in
    record {
      key = key;
      key_of = key_of;
      config_raw = config_raw;
      config_read = config_read;
      parsed = parsed;
      config_parsed = config_parsed;
      previous_raw = previous_raw;
      previous_read = previous_read;
      now = now;
      moment_of = moment_of;
      built = built;
      builds = builds;
      sig = sig;
      detached = detached;
      published =
          subst (λ s. IsPublished crates H L s out parsed.catalog_id built sig)
            (sym (prints-disk crates H _ _ v h7))
            (publish-IsPublished crates H L out base parsed.catalog_id built sig apart w v e);
    }

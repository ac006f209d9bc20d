-- ===== src/Build/Parts.antt =====
-- src/build.rs, `build_snapshot`: its parts, where it returns.
use onym_discovery.Prelude.{◌≡◌, refl, subst, ℕ, Text, Bytes, Option, List, arith}
use onym_discovery.Result.{ok, >>=-eq-ok}
use onym_discovery.Json.{Value, of_values}
use onym_discovery.Json.Regular.{RegularValues}
use onym_discovery.Build.Plain.{resolve_entries-Regular}
use onym_discovery.Error.{internal, foreign}
use onym_discovery.Crates.{Crates, Attempt, done, attempt, add_duration}
use onym_discovery.Types.Constants.{days}
use onym_discovery.Types.Fields.{format_timestamp}
use onym_discovery.Sign.{sign_document}
use onym_discovery.Types.Records.{SnapshotConfig}
use onym_discovery.Verify.State.{sha256_digest}
use onym_discovery.Build.{
  BuiltSnapshot, check_config, resolve_entries, position, document, build_snapshot,
}

-- The parts of a build: its position in the chain, and the document that it signs.
pub record IsBuilt (crates : Crates) (read_file : Text → Attempt Bytes) (config : SnapshotConfig)
    (previous : Option Bytes) (now : ℕ) (key : Bytes) (built : BuiltSnapshot) : Type 0 where
  pub checked : check_config config ≡ ok tt
  pub previous_digest : Option Text
  pub placed : position crates config previous ≡ ok (built.sequence, previous_digest)
  pub until : ℕ
  pub lasting : add_duration crates now (days config.expiry_days) ≡ ok until
  pub generated_at : Text
  pub generated : format_timestamp crates now ≡ ok generated_at
  pub expires_at : Text
  pub expires : format_timestamp crates until ≡ ok expires_at
  pub entries : List Value
  pub resolved : resolve_entries crates read_file config.entries ≡ ok entries
  pub plain : RegularValues 125 (of_values entries)
  pub unsigned : Bytes
  pub encoded :
      crates.to_vec (document config built.sequence previous_digest generated_at expires_at entries)
      ≡ done unsigned
  pub signed : sign_document crates unsigned key ≡ ok built.bytes
  pub pinned : built.digest ≡ sha256_digest crates built.bytes

pub build_snapshot-IsBuilt :
    (crates : Crates) (read_file : Text → Attempt Bytes) (config : SnapshotConfig)
    (previous : Option Bytes) (generated_at : ℕ) (key : Bytes) (built : BuiltSnapshot)
    → build_snapshot crates read_file config previous generated_at key ≡ ok built
    → IsBuilt crates read_file config previous generated_at key built
unfolding build_snapshot
build_snapshot-IsBuilt crates read_file config previous generated_at key built h =
    let (_, e0, h0) = >>=-eq-ok (check_config config) _ h in
    let ((n, d), e1, h1) = >>=-eq-ok (position crates config previous) _ h0 in
    let (entries, e2, h2) = >>=-eq-ok (resolve_entries crates read_file config.entries) _ h1 in
    let (until, e3, h3) =
      >>=-eq-ok (add_duration crates generated_at (days config.expiry_days)) _ h2 in
    let (g, e4, h4) = >>=-eq-ok (format_timestamp crates generated_at) _ h3 in
    let (e, e5, h5) = >>=-eq-ok (format_timestamp crates until) _ h4 in
    let (u, e6, h6) =
      >>=-eq-ok
        (attempt (λ w. internal (foreign w)) (crates.to_vec (document config n d g e entries))) _
        h5 in
    let (bytes, e7, h7) = >>=-eq-ok (sign_document crates u key) _ h6 in
    subst (IsBuilt crates read_file config previous generated_at key)
      {x = record { bytes = bytes; sequence = n; digest = sha256_digest crates bytes }}
      (ground (arith, h7))
      (record {
        previous_digest = d;
        placed = e1;
        checked = e0;
        until = until;
        lasting = e3;
        generated_at = g;
        generated = e4;
        expires_at = e;
        expires = e5;
        entries = entries;
        resolved = e2;
        plain = resolve_entries-Regular crates read_file config.entries entries e2;
        unsigned = u;
        encoded = ground (arith, e6);
        signed = e7;
        pinned = refl;
      })

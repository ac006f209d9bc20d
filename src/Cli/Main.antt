-- ===== src/Cli/Main.antt =====
-- src/main.rs: the commands.
pub mod Held
pub mod Keygen
pub mod Published
pub mod Ordered
pub mod Repeated
pub mod Built
pub mod Signed
pub mod Verified
pub mod Untouched
pub mod Unpanicked
use onym_discovery.Prelude.{
  ℕ, Text, Bytes, text, Bool, true, false, Option, none, some, [], ◌∷◌, ◌++◌, length, if◌then◌else◌,
}
use onym_discovery.Result.{Result}
use onym_discovery.Result
use onym_discovery.Crates.{Crates, Attempt, done, failed, from_slice, decoded}
use onym_discovery.Types.Records.{SnapshotConfig}
use onym_discovery.Types.Document.{config_of}
use onym_discovery.Keys.{generate_seed, signing_key_from_seed_hex, operator_id, fingerprint}
use onym_discovery.Sign.{sign_document, detached_signature}
use onym_discovery.Verify.State.{
  VerifiedManifest, VerifiedSnapshot, RetainedCatalogState, ChainOutcome, first_acceptance,
  successor, no_op_refresh, forward_jump_with_note, sha256_digest, from_snapshot_bytes,
}
use onym_discovery.Verify.Manifest.{verify_manifest}
use onym_discovery.Verify.Snapshot.{verify_snapshot}
use onym_discovery.Verify.Detached.{verify_destination, verify_detached_sig}
use onym_discovery.Build.{BuiltSnapshot, build_snapshot}
use onym_discovery.Cli.Host.{Host, Reading, contents, not_found, unreadable}
use onym_discovery.Cli.Output.{
  Line, operator_line, fingerprint_line, seed_line, wrote, wrote_snapshot, retention_line,
  manifest_line, digest_line, detached_agrees, snapshot_line, no_op_note, forward_jump_note,
  transition_note, transition_bound_note, destination_line, Failure, json, in_parse, key_exists,
}
use onym_discovery.Cli.Run.{
  Outcome, World, Run, ◌>>=◌, ◌>>◌, return, fail, lift, print, read_path, write_path, set_mode_path,
}
use onym_discovery.Cli.Names.{retention_path, sig_path}
use onym_discovery.Cli.Files.{moment, load_key, write_immutable}

-- What `clap` makes of the arguments.
pub data VerifyCommand : Type 0 where
  verify_manifest_file : (file : Text) (sig at : Option Text) → VerifyCommand
  verify_snapshot_file :
      (file manifest : Text) (sig previous previous_policy at : Option Text) → VerifyCommand
  verify_destination_file : (file digest : Text) → VerifyCommand

pub data Command : Type 0 where
  keygen : (out : Text) → Command
  fingerprint_of : (seed : Text) → Command
  sign_manifest : (seed input out : Text) → Command
  build : (seed config : Text) (previous generated_at : Option Text) (out : Text) → Command
  verify : VerifyCommand → Command

-- `format!("{}\n", text)`
abbrev pub with_newline : Text → Bytes
with_newline s = s ++ 10 ∷ []

abbrev pub key_mode : ℕ
key_mode = 384

abbrev pub here : Text
unfolding text
here = text "."

abbrev plain : Failure → Failure
plain e = e

module _ (crates : Crates) (H : Host) where
  open crates use {verifying_key, hex_encode}

  abbrev print_identity : Bytes → Run H (Unit {0})
  print_identity key = do
    print (operator_line (operator_id crates (verifying_key key)))
    print (fingerprint_line (fingerprint crates (verifying_key key)))

  abbrev refuse_existing : Text → Run H (Unit {0})
  refuse_existing out w = (if H.exists w.disk out then fail (key_exists out) else return tt) w

  -- `0o600` is 384.
  unfoldable pub write_seed : Text → Run H (Unit {0})
  unfolding generate_seed
  write_seed out = do
    let seed = generate_seed H.fill_bytes
    key ← lift (signing_key_from_seed_hex crates (hex_encode seed))
    write_path plain out (with_newline (hex_encode seed))
    set_mode_path out key_mode
    print_identity key
    print (seed_line out)

  unfoldable pub run_keygen : Text → Run H (Unit {0})
  unfolding write_seed
  run_keygen out = do refuse_existing out; write_seed out

  unfoldable pub run_fingerprint : Text → Run H (Unit {0})
  run_fingerprint seed = do key ← load_key crates H seed; print_identity key

  unfoldable pub run_sign_manifest : Text → Text → Text → Run H (Unit {0})
  run_sign_manifest seed input out = do
    key ← load_key crates H seed
    raw ← read_path input
    signed ← lift (sign_document crates raw key)
    write_path plain out signed
    sig ← lift (detached_signature crates signed)
    write_path plain (sig_path H out) (with_newline sig)
    print (wrote out (length signed) (sha256_digest crates signed))

  abbrev parsed_config : Text → Attempt SnapshotConfig → Run H SnapshotConfig
  parsed_config path (done config) = return config
  parsed_config path (failed e) = fail (in_parse path (json e))

  abbrev read_optional : Option Text → Run H (Option Bytes)
  read_optional none = return none
  read_optional (some path) = do bytes ← read_path path; return (some bytes)

  -- The directory of the config, where the build looks for `manifestFile`.
  abbrev config_dir : Text → Text
  config_dir config = elim (H.parent config) [ none ↦ here | some dir ↦ dir ]

  abbrev read_file : H.State → Text → Text → Attempt Bytes
  read_file disk dir path = elim (H.read disk (H.join dir path)) [
    | contents b ↦ done b
    | not_found e ↦ failed e
    | unreadable e ↦ failed e
  ]

  abbrev build_in : Text → SnapshotConfig → Option Bytes → ℕ → Bytes → Run H BuiltSnapshot
  build_in dir config previous generated_at key w =
      lift (build_snapshot crates (read_file w.disk dir) config previous generated_at key) w

  -- The siblings that name the publication come first, the latest files behind them.
  unfoldable pub publish : Text → Text → BuiltSnapshot → Text → Run H (Unit {0})
  publish out catalog_id built sig = do
    let retention = retention_path H out catalog_id built.sequence
    write_immutable H retention built.bytes
    write_immutable H (sig_path H retention) (with_newline sig)
    write_path plain out built.bytes
    write_path plain (sig_path H out) (with_newline sig)

  unfoldable pub run_build : Text → Text → Option Text → Option Text → Text → Run H (Unit {0})
  run_build seed config previous generated_at out = do
    key ← load_key crates H seed
    config_raw ← read_path config
    parsed ← parsed_config config (from_slice crates (λ s. decoded (config_of crates s)) config_raw)
    previous_raw ← read_optional previous
    now ← moment crates H generated_at
    built ← build_in (config_dir config) parsed previous_raw now key
    sig ← lift (detached_signature crates built.bytes)
    publish out parsed.catalog_id built sig
    print (wrote_snapshot out built.sequence (length built.bytes) built.digest)
    print (retention_line (retention_path H out parsed.catalog_id built.sequence))

  abbrev check_detached : Bytes → Option Text → Bool → Run H (Unit {0})
  check_detached raw none snapshot = return tt
  check_detached raw (some sig) snapshot = do
    sig_raw ← read_path sig
    lift (verify_detached_sig crates raw sig_raw snapshot)

  abbrev print_detached : Option Text → Run H (Unit {0})
  print_detached none = return tt
  print_detached (some _) = print detached_agrees

  unfoldable pub run_verify_manifest : Text → Option Text → Option Text → Run H (Unit {0})
  run_verify_manifest file sig at = do
    raw ← read_path file
    check_detached raw sig false
    now ← moment crates H at
    v ← lift (verify_manifest crates raw now)
    print (
        manifest_line v.manifest.provider_id v.manifest.operator (length v.catalogs)
          (length v.skipped) (length v.audience_skipped))
    print (digest_line (sha256_digest crates raw))
    print_detached sig

  abbrev retained_from : Option Text → Option Text → Run H (Option RetainedCatalogState)
  retained_from none policy = return none
  retained_from (some path) policy = do
    bytes ← read_path path
    retained ← lift (from_snapshot_bytes crates bytes policy)
    return (some retained)

  abbrev print_outcome : ChainOutcome → Run H (Unit {0})
  print_outcome no_op_refresh = print no_op_note
  print_outcome (forward_jump_with_note missed) = print (forward_jump_note missed)
  print_outcome first_acceptance = return tt
  print_outcome successor = return tt

  abbrev print_transition : Bool → Run H (Unit {0})
  print_transition true = do print transition_note; print transition_bound_note
  print_transition false = return tt

  abbrev print_snapshot : VerifiedSnapshot → Run H (Unit {0})
  print_snapshot v = do
    print (
        snapshot_line v.snapshot.catalog_id v.snapshot.sequence (length v.entries)
          (length v.skipped) v.digest)
    print_outcome v.outcome
    print_transition v.policy_transition

  unfoldable pub run_verify_snapshot :
      Text → Text → Option Text → Option Text → Option Text → Option Text → Run H (Unit {0})
  run_verify_snapshot file manifest sig previous previous_policy at = do
    raw ← read_path file
    check_detached raw sig true
    manifest_raw ← read_path manifest
    now ← moment crates H at
    parsed_manifest ← lift (verify_manifest crates manifest_raw now)
    retained ← retained_from previous previous_policy
    v ← lift (verify_snapshot crates raw parsed_manifest retained now)
    print_snapshot v
    print_detached sig

  unfoldable pub run_verify_destination : Text → Text → Run H (Unit {0})
  run_verify_destination file digest = do
    raw ← read_path file
    lift (verify_destination crates raw digest)
    print (destination_line digest)

  unfoldable pub run_verify : VerifyCommand → Run H (Unit {0})
  unfolding run_verify_manifest run_verify_snapshot run_verify_destination
  run_verify (verify_manifest_file file sig at) = run_verify_manifest file sig at
  run_verify (verify_snapshot_file file manifest sig previous policy at) =
      run_verify_snapshot file manifest sig previous policy at
  run_verify (verify_destination_file file digest) = run_verify_destination file digest

  unfoldable pub main : Command → Run H (Unit {0})
  unfolding run_keygen run_fingerprint run_sign_manifest run_build run_verify
  main (keygen out) = run_keygen out
  main (fingerprint_of seed) = run_fingerprint seed
  main (sign_manifest seed input out) = run_sign_manifest seed input out
  main (build seed config previous generated_at out) =
      run_build seed config previous generated_at out
  main (verify command) = run_verify command

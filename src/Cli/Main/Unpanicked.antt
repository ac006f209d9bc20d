-- ===== src/Cli/Main/Unpanicked.antt =====
-- src/main.rs: the commands that verify do not panic.
use onym_discovery.Prelude.{Text, Bytes, ℕ, Option, none, some, Bool, true, false, ◌≢◌, inl, inr}
use onym_discovery.Result.{Result-cases}
use onym_discovery.Crates.{Crates}
use onym_discovery.Crates.Laws.{HexLaws}
use onym_discovery.Types.Fields.{parse_timestamp}
use onym_discovery.Types.Fields.Total.{parse_timestamp-Returns}
use onym_discovery.Verify.State.{
  ChainOutcome, first_acceptance, successor, no_op_refresh, forward_jump_with_note,
  VerifiedSnapshot, from_snapshot_bytes,
}
use onym_discovery.Verify.Manifest.{verify_manifest}
use onym_discovery.Verify.Manifest.Total.{verify_manifest-Returns}
use onym_discovery.Verify.Snapshot.{verify_snapshot}
use onym_discovery.Verify.Snapshot.Total.{HasRoom, verify_snapshot-Returns}
use onym_discovery.Verify.Detached.{verify_destination}
use onym_discovery.Verify.Detached.Total.{
  verify_destination-Returns, verify_detached_sig-Returns, from_snapshot_bytes-Returns,
}
use onym_discovery.Cli.Host.{Host}
use onym_discovery.Cli.Run.{panicked, World, Run, ◌>>=◌, lift, print, read_path}
use onym_discovery.Cli.Run.Calm.{
  Calm, Calm-returned, Calm-failed, Calm-chain, Calm-lift, Calm-print, Calm-read_path,
}
use onym_discovery.Cli.Files.{moment}
use onym_discovery.Cli.Files.Steps.{IsMoment, at_now, at_given}
use onym_discovery.Cli.Main.{
  verify, VerifyCommand, verify_manifest_file, verify_snapshot_file, verify_destination_file,
  run_verify, check_detached, print_detached, retained_from, print_outcome, print_transition,
  print_snapshot, main,
}

-- The `--at` of a command.
unfoldable pub judged_at : VerifyCommand → Option Text
judged_at (verify_manifest_file file sig at) = at
judged_at (verify_snapshot_file file manifest sig previous policy at) = at
judged_at (verify_destination_file file digest) = none

module _ (crates : Crates) (H : Host) where
  Calm-moment :
      {B : Type 0} (at : Option Text) (next : ℕ → Run H B) (w : World H)
      → ((now : ℕ) → IsMoment crates H at now → Calm (next now w))
      → Calm ((moment crates H at >>= next) w)
  unfolding moment lift
  Calm-moment none next w n = n H.now_utc at_now
  Calm-moment (some value) next w n = elim (Result-cases (parse_timestamp crates value)) [
    | inl (t, e) ↦ rw e (n t (at_given value t e))
    | inr (inl e) ↦ absurd (parse_timestamp-Returns crates value e)
    | inr (inr (x, e)) ↦ rw e (Calm-failed _ w)
  ]

  Calm-check_detached :
      (raw : Bytes) (sig : Option Text) (snapshot : Bool) (w : World H)
      → Calm (check_detached crates H raw sig snapshot w)
  Calm-check_detached raw none snapshot w = Calm-returned tt w
  Calm-check_detached raw (some sig) snapshot w =
      Calm-chain (read_path sig w) _ (Calm-read_path sig w)
        λ file v. Calm-lift _ v (verify_detached_sig-Returns crates raw file snapshot)

  Calm-print_detached : (sig : Option Text) (w : World H) → Calm (print_detached crates H sig w)
  Calm-print_detached none w = Calm-returned tt w
  Calm-print_detached (some sig) w = Calm-print _ w

  Calm-retained_from :
      (previous policy : Option Text) (w : World H)
      → Calm (retained_from crates H previous policy w)
  Calm-retained_from none policy w = Calm-returned none w
  Calm-retained_from (some path) policy w =
      Calm-chain (read_path path w) _ (Calm-read_path path w) λ bytes v.
        Calm-chain (lift (from_snapshot_bytes crates bytes policy) v) _
          (Calm-lift _ v (from_snapshot_bytes-Returns crates bytes policy))
          λ r u. Calm-returned (some r) u

  Calm-print_outcome : (o : ChainOutcome) (w : World H) → Calm (print_outcome crates H o w)
  Calm-print_outcome first_acceptance w = Calm-returned tt w
  Calm-print_outcome successor w = Calm-returned tt w
  Calm-print_outcome no_op_refresh w = Calm-print _ w
  Calm-print_outcome (forward_jump_with_note missed) w = Calm-print _ w

  Calm-print_transition : (b : Bool) (w : World H) → Calm (print_transition crates H b w)
  Calm-print_transition true w = Calm-chain (print _ w) _ (Calm-print _ w) λ _ v. Calm-print _ v
  Calm-print_transition false w = Calm-returned tt w

  Calm-print_snapshot : (v : VerifiedSnapshot) (w : World H) → Calm (print_snapshot crates H v w)
  Calm-print_snapshot v w = Calm-chain (print _ w) _ (Calm-print _ w) λ _ w1.
      Calm-chain (print_outcome crates H v.outcome w1) _ (Calm-print_outcome v.outcome w1)
        λ _ w2. Calm-print_transition v.policy_transition w2

  Calm-run_verify :
      HexLaws crates
      → (command : VerifyCommand) (w : World H)
      → ((now : ℕ) → IsMoment crates H (judged_at command) now → HasRoom crates now)
      → Calm (run_verify crates H command w)
  unfolding run_verify judged_at
  Calm-run_verify hex (verify_manifest_file file sig at) w room =
      Calm-chain (read_path file w) _ (Calm-read_path file w) λ raw w1.
        Calm-chain (check_detached crates H raw sig false w1) _
          (Calm-check_detached raw sig false w1)
          λ _ w2. Calm-moment at _ w2 λ now _.
            Calm-chain (lift (verify_manifest crates raw now) w2) _
              (Calm-lift _ w2 (verify_manifest-Returns crates hex raw now))
              λ v w3. Calm-chain (print _ w3) _ (Calm-print _ w3) λ _ w4.
                Calm-chain (print _ w4) _ (Calm-print _ w4) λ _ w5. Calm-print_detached sig w5
  Calm-run_verify hex (verify_snapshot_file file manifest sig previous policy at) w room =
      Calm-chain (read_path file w) _ (Calm-read_path file w) λ raw w1.
        Calm-chain (check_detached crates H raw sig true w1) _ (Calm-check_detached raw sig true w1)
          λ _ w2.
            Calm-chain (read_path manifest w2) _ (Calm-read_path manifest w2) λ manifest_raw w3.
              Calm-moment at _ w3 λ now is.
                Calm-chain (lift (verify_manifest crates manifest_raw now) w3) _
                  (Calm-lift _ w3 (verify_manifest-Returns crates hex manifest_raw now))
                  λ m w4.
                    Calm-chain (retained_from crates H previous policy w4) _
                      (Calm-retained_from previous policy w4)
                      λ retained w5.
                        Calm-chain (lift (verify_snapshot crates raw m retained now) w5) _
                          (Calm-lift _ w5
                            (verify_snapshot-Returns crates hex raw m retained now (room now is)))
                          λ v w6.
                            Calm-chain (print_snapshot crates H v w6) _ (Calm-print_snapshot v w6)
                              λ _ w7. Calm-print_detached sig w7
  Calm-run_verify hex (verify_destination_file file digest) w room =
      Calm-chain (read_path file w) _ (Calm-read_path file w) λ raw w1.
        Calm-chain (lift (verify_destination crates raw digest) w1) _
          (Calm-lift _ w1 (verify_destination-Returns crates raw digest)) λ _ w2. Calm-print _ w2

-- A command that verifies ends with its result or with an error, never with a panic, on any files, if
-- the moment at which it judges lies ninety days and twenty minutes before the last instant.
pub verify-Calm :
    (crates : Crates) (H : Host)
    → HexLaws crates
    → (command : VerifyCommand) (w : World H)
    → ((now : ℕ) → IsMoment crates H (judged_at command) now → HasRoom crates now)
    → (main crates H (verify command) w).0 ≢ panicked
unfolding main
verify-Calm crates H hex command w room = Calm-run_verify crates H hex command w room

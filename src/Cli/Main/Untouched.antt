-- ===== src/Cli/Main/Untouched.antt =====
-- src/main.rs: the commands that only read.
use onym_discovery.Prelude.{
  inl, inr, Bool-cases, Text, Bytes, Option, none, some, Bool, true, false, ◌≡◌, refl, ◌∙◌,
}
use onym_discovery.Crates.{Crates}
use onym_discovery.Verify.State.{
  ChainOutcome, first_acceptance, successor, no_op_refresh, forward_jump_with_note,
  VerifiedSnapshot,
}
use onym_discovery.Cli.Host.{Host}
use onym_discovery.Cli.Run.{World}
use onym_discovery.Cli.Run.Frame.{
  Preorder, Keeps, Keeps-bind, Keeps-return, Keeps-fail, Keeps-print, Keeps-lift, Keeps-read_path,
}
use onym_discovery.Cli.Files.{moment, as_text, load_key}
use onym_discovery.Cli.Main.{
  fingerprint_of, verify, VerifyCommand, verify_manifest_file, verify_snapshot_file,
  verify_destination_file, run_fingerprint, run_verify, check_detached, print_detached,
  retained_from, print_outcome, print_transition, print_snapshot, print_identity, main,
}

module _ (crates : Crates) (H : Host) (P : Preorder H.State) where
  pub Keeps-moment : (at : Option Text) → Keeps P (moment crates H at)
  unfolding moment
  Keeps-moment none = Keeps-return P H.now_utc
  Keeps-moment (some value) = Keeps-lift P _

  Keeps-as_text : (path : Text) (bytes : Bytes) → Keeps P (as_text crates H path bytes)
  unfolding as_text
  Keeps-as_text path bytes = elim (Bool-cases (crates.is_utf8 bytes)) [
    | inl e ↦ rw e (Keeps-return P bytes)
    | inr e ↦ rw e (Keeps-fail P _)
  ]

  pub Keeps-load_key : (path : Text) → Keeps P (load_key crates H path)
  unfolding load_key
  Keeps-load_key path =
      Keeps-bind P (Keeps-read_path P path)
        λ bytes. Keeps-bind P (Keeps-as_text path bytes) λ seed. Keeps-lift P _

  Keeps-check_detached :
      (raw : Bytes) (sig : Option Text) (snapshot : Bool)
      → Keeps P (check_detached crates H raw sig snapshot)
  Keeps-check_detached raw none snapshot = Keeps-return P tt
  Keeps-check_detached raw (some sig) snapshot =
      Keeps-bind P (Keeps-read_path P sig) λ sig_raw. Keeps-lift P _

  Keeps-print_detached : (sig : Option Text) → Keeps P (print_detached crates H sig)
  Keeps-print_detached none = Keeps-return P tt
  Keeps-print_detached (some sig) = Keeps-print P _

  Keeps-retained_from :
      (previous policy : Option Text) → Keeps P (retained_from crates H previous policy)
  Keeps-retained_from none policy = Keeps-return P none
  Keeps-retained_from (some path) policy =
      Keeps-bind P (Keeps-read_path P path)
        λ bytes. Keeps-bind P (Keeps-lift P _) λ retained. Keeps-return P (some retained)

  Keeps-print_outcome : (o : ChainOutcome) → Keeps P (print_outcome crates H o)
  Keeps-print_outcome first_acceptance = Keeps-return P tt
  Keeps-print_outcome successor = Keeps-return P tt
  Keeps-print_outcome no_op_refresh = Keeps-print P _
  Keeps-print_outcome (forward_jump_with_note missed) = Keeps-print P _

  Keeps-print_transition : (b : Bool) → Keeps P (print_transition crates H b)
  Keeps-print_transition true = Keeps-bind P (Keeps-print P _) λ _. Keeps-print P _
  Keeps-print_transition false = Keeps-return P tt

  Keeps-print_snapshot : (v : VerifiedSnapshot) → Keeps P (print_snapshot crates H v)
  Keeps-print_snapshot v = Keeps-bind P (Keeps-print P _) λ _.
      Keeps-bind P (Keeps-print_outcome v.outcome) λ _. Keeps-print_transition v.policy_transition

  pub Keeps-run_verify : (command : VerifyCommand) → Keeps P (run_verify crates H command)
  unfolding run_verify
  Keeps-run_verify (verify_manifest_file file sig at) = Keeps-bind P (Keeps-read_path P file) λ raw.
      Keeps-bind P (Keeps-check_detached raw sig false) λ _. Keeps-bind P (Keeps-moment at) λ now.
        Keeps-bind P (Keeps-lift P _) λ v.
          Keeps-bind P (Keeps-print P _)
            λ _. Keeps-bind P (Keeps-print P _) λ _. Keeps-print_detached sig
  Keeps-run_verify (verify_snapshot_file file manifest sig previous policy at) =
      Keeps-bind P (Keeps-read_path P file) λ raw.
        Keeps-bind P (Keeps-check_detached raw sig true) λ _.
          Keeps-bind P (Keeps-read_path P manifest) λ manifest_raw.
            Keeps-bind P (Keeps-moment at) λ now. Keeps-bind P (Keeps-lift P _) λ m.
              Keeps-bind P (Keeps-retained_from previous policy) λ retained.
                Keeps-bind P (Keeps-lift P _)
                  λ v. Keeps-bind P (Keeps-print_snapshot v) λ _. Keeps-print_detached sig
  Keeps-run_verify (verify_destination_file file digest) =
      Keeps-bind P (Keeps-read_path P file)
        λ raw. Keeps-bind P (Keeps-lift P _) λ _. Keeps-print P _

  pub Keeps-print_identity : (key : Bytes) → Keeps P (print_identity crates H key)
  Keeps-print_identity key = Keeps-bind P (Keeps-print P _) λ _. Keeps-print P _

  pub Keeps-run_fingerprint : (seed : Text) → Keeps P (run_fingerprint crates H seed)
  unfolding run_fingerprint
  Keeps-run_fingerprint seed = Keeps-bind P (Keeps-load_key seed) Keeps-print_identity

abbrev Unchanged : (S : Type 0) → Preorder S
Unchanged S = record { Rel = λ s t. t ≡ s; same = λ s. refl; both = λ s t u p q. q ∙ p }

-- A command that verifies, or prints a fingerprint, leaves the disk as it was, also where it fails.
pub main_reads :
    (crates : Crates) (H : Host) (w : World H) (command : VerifyCommand) (seed : Text)
    → ((main crates H (verify command) w).1.disk ≡ w.disk)
      × ((main crates H (fingerprint_of seed) w).1.disk ≡ w.disk)
unfolding main
main_reads crates H w command seed = (
  (Keeps-run_verify crates H (Unchanged H.State) command).at w,
  (Keeps-run_fingerprint crates H (Unchanged H.State) seed).at w,
)

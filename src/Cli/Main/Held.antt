-- ===== src/Cli/Main/Held.antt =====
-- src/main.rs: which files a command can overwrite.
use onym_discovery.Prelude.{
  Text, Bytes, ℕ, Option, none, some, ◌≡◌, ◌≢◌, refl, sym, ap, ◌∙◌, List, [], ◌∷◌, Absent, inl, inr,
  Bool-cases, ◌=ᵗ◌,
}
use onym_discovery.Crates.{Crates, Attempt, done, failed}
use onym_discovery.Types.Records.{SnapshotConfig}
use onym_discovery.Build.{BuiltSnapshot}
use onym_discovery.Cli.Host.{Host, IsFileSystem, Reading, contents, not_found, unreadable}
use onym_discovery.Cli.Output.{Failure, in_path}
use onym_discovery.Cli.Run.{World, write_path}
use onym_discovery.Cli.Run.Frame.{
  Preorder, Keeps, Keeps-bind, Keeps-return, Keeps-fail, Keeps-print, Keeps-lift, Keeps-read_path,
  Keeps-write_path, Keeps-set_mode_path,
}
use onym_discovery.Cli.Names.{sig_path}
use onym_discovery.Cli.Files.{write_unless, write_immutable}
use onym_discovery.Cli.Main.{
  Command, keygen, fingerprint_of, sign_manifest, build, verify, run_keygen, write_seed,
  run_sign_manifest, run_build, publish, parsed_config, read_optional, build_in, main,
}
use onym_discovery.Cli.Main.Untouched.{
  Keeps-moment, Keeps-load_key, Keeps-run_verify, Keeps-run_fingerprint, Keeps-print_identity,
}

-- The file at `p` holds `b` still.
abbrev pub Held : (H : Host) → Text → Bytes → Preorder H.State
Held H p b = record {
  Rel = λ s t. H.read s p ≡ contents b → H.read t p ≡ contents b;
  same = λ s h. h;
  both = λ s t u f g h. g (f h);
}

module _ (H : Host) (L : IsFileSystem H) (p : Text) (b : Bytes) where
  Held-write :
      (q : Text) (c : Bytes) (s : H.State)
      → p ≢ q
      → H.read s p ≡ contents b
      → H.read (H.write s q c).0 p ≡ contents b
  Held-write q c s n h = L.read-write_other s q p c (λ e. n (sym e)) ∙ h

  pub Keeps-write_other :
      (wrap : Failure → Failure) (q : Text) (c : Bytes)
      → p ≢ q
      → Keeps {H = H} (Held H p b) (write_path wrap q c)
  Keeps-write_other wrap q c n =
      Keeps-write_path (Held H p b) wrap q c (λ s h. Held-write q c s n h)

  not_found-ne :
      (s : H.State) (q e : Text) → H.read s q ≡ not_found e → H.read s p ≡ contents b → p ≢ q
  not_found-ne s q e h k same = cc (h, k, ap (H.read s) same)

  Rel-write_unless :
      (q : Text) (c : Bytes) (w : World H) (r : Reading)
      → H.read w.disk q ≡ r
      → H.read w.disk p ≡ contents b
      → H.read (write_unless H q c r w).1.disk p ≡ contents b
  unfolding write_unless
  Rel-write_unless q c w (contents existing) e h = elim (Bool-cases (existing =ᵗ c)) [
    | inl t ↦ rw t h
    | inr t ↦ rw t h
  ]
  Rel-write_unless q c w (not_found why) e h =
      (Keeps-write_other (in_path q) q c (not_found-ne w.disk q why e h)).at w h
  Rel-write_unless q c w (unreadable why) e h = h

  -- A file that exists is never changed by `write_immutable`.
  pub Keeps-write_immutable :
      (q : Text) (c : Bytes) → Keeps {H = H} (Held H p b) (write_immutable H q c)
  unfolding write_immutable
  Keeps-write_immutable q c = record { at = λ w h. Rel-write_unless q c w (H.read w.disk q) refl h }

  Keeps-read_optional :
      (crates : Crates) (previous : Option Text)
      → Keeps {H = H} (Held H p b) (read_optional crates H previous)
  Keeps-read_optional crates none = Keeps-return (Held H p b) none
  Keeps-read_optional crates (some path) =
      Keeps-bind (Held H p b) (Keeps-read_path (Held H p b) path)
        λ bytes. Keeps-return (Held H p b) (some bytes)

  Keeps-parsed_config :
      (crates : Crates) (path : Text) (config : Attempt SnapshotConfig)
      → Keeps {H = H} (Held H p b) (parsed_config crates H path config)
  Keeps-parsed_config crates path (done c) = Keeps-return (Held H p b) c
  Keeps-parsed_config crates path (failed e) = Keeps-fail (Held H p b) _

  Keeps-build_in :
      (crates : Crates) (dir : Text) (config : SnapshotConfig) (previous : Option Bytes) (at : ℕ)
      (key : Bytes)
      → Keeps {H = H} (Held H p b) (build_in crates H dir config previous at key)
  Keeps-build_in crates dir config previous at key = record {
    at = λ w. (Keeps-lift (Held H p b) _).at w;
  }

  Keeps-publish :
      (crates : Crates) (out catalog_id : Text) (built : BuiltSnapshot) (sig : Text)
      → p ≢ out
      → p ≢ sig_path H out
      → Keeps {H = H} (Held H p b) (publish crates H out catalog_id built sig)
  unfolding publish
  Keeps-publish crates out catalog_id built sig n m =
      Keeps-bind (Held H p b) (Keeps-write_immutable _ _) λ _.
        Keeps-bind (Held H p b) (Keeps-write_immutable _ _) λ _.
          Keeps-bind (Held H p b) (Keeps-write_other _ out built.bytes n)
            λ _. Keeps-write_other _ (sig_path H out) _ m

  Keeps-run_build :
      (crates : Crates) (seed config : Text) (previous generated_at : Option Text) (out : Text)
      → p ≢ out
      → p ≢ sig_path H out
      → Keeps {H = H} (Held H p b) (run_build crates H seed config previous generated_at out)
  unfolding run_build
  Keeps-run_build crates seed config previous generated_at out n m =
      Keeps-bind (Held H p b) (Keeps-load_key crates H (Held H p b) seed) λ key.
        Keeps-bind (Held H p b) (Keeps-read_path (Held H p b) config) λ config_raw.
          Keeps-bind (Held H p b) (Keeps-parsed_config crates config _) λ parsed.
            Keeps-bind (Held H p b) (Keeps-read_optional crates previous) λ previous_raw.
              Keeps-bind (Held H p b) (Keeps-moment crates H (Held H p b) generated_at) λ now.
                Keeps-bind (Held H p b) (Keeps-build_in crates _ parsed previous_raw now key)
                  λ built. Keeps-bind (Held H p b) (Keeps-lift (Held H p b) _) λ sig.
                    Keeps-bind (Held H p b)
                      (Keeps-publish crates out parsed.catalog_id built sig n m)
                      λ _.
                        Keeps-bind (Held H p b) (Keeps-print (Held H p b) _)
                          λ _. Keeps-print (Held H p b) _

  Keeps-run_sign_manifest :
      (crates : Crates) (seed input out : Text)
      → p ≢ out
      → p ≢ sig_path H out
      → Keeps {H = H} (Held H p b) (run_sign_manifest crates H seed input out)
  unfolding run_sign_manifest
  Keeps-run_sign_manifest crates seed input out n m =
      Keeps-bind (Held H p b) (Keeps-load_key crates H (Held H p b) seed) λ key.
        Keeps-bind (Held H p b) (Keeps-read_path (Held H p b) input) λ raw.
          Keeps-bind (Held H p b) (Keeps-lift (Held H p b) _) λ signed.
            Keeps-bind (Held H p b) (Keeps-write_other _ out signed n) λ _.
              Keeps-bind (Held H p b) (Keeps-lift (Held H p b) _) λ sig.
                Keeps-bind (Held H p b) (Keeps-write_other _ (sig_path H out) _ m)
                  λ _. Keeps-print (Held H p b) _

  -- Behind the check that nothing stands at `out`.
  Keeps-write_seed :
      (crates : Crates) (out : Text)
      → p ≢ out
      → Keeps {H = H} (Held H p b) (write_seed crates H out)
  unfolding write_seed
  Keeps-write_seed crates out n = Keeps-bind (Held H p b) (Keeps-lift (Held H p b) _) λ key.
      Keeps-bind (Held H p b) (Keeps-write_other _ out _ n) λ _.
        Keeps-bind (Held H p b)
          (Keeps-set_mode_path (Held H p b) out _ (λ s h. L.read-set_mode s out p _ ∙ h))
          λ _.
            Keeps-bind (Held H p b) (Keeps-print_identity crates H (Held H p b) key)
              λ _. Keeps-print (Held H p b) _

  Held-run_keygen :
      (crates : Crates) (out : Text) (w : World H)
      → H.read w.disk p ≡ contents b
      → H.read (run_keygen crates H out w).1.disk p ≡ contents b
  unfolding run_keygen
  Held-run_keygen crates out w h = elim (Bool-cases (H.exists w.disk out)) [
    | inl e ↦ rw e h
    | inr e ↦ rw e (
        (Keeps-write_seed crates out
            (λ q. cc (e, ap (H.exists w.disk) q, L.exists-read w.disk p b h))).at
          w h)
  ]

-- The files that a command writes whatever stands there.
unfoldable pub targets : Host → Command → List Text
targets H (sign_manifest seed input out) = out ∷ sig_path H out ∷ []
targets H (build seed config previous generated_at out) = out ∷ sig_path H out ∷ []
targets H _ = []

-- On a file system whose files no link joins, a command leaves every file as it is that exists, but for
-- the `out` of `sign-manifest` and `build-snapshot` and the signature beside it, also where the
-- command fails.
pub main_holds :
    (crates : Crates) (H : Host)
    → IsFileSystem H
    → (command : Command) (w : World H) (p : Text) (b : Bytes) → Absent p (targets H command)
    → H.read w.disk p ≡ contents b
    → H.read (main crates H command w).1.disk p ≡ contents b
unfolding main targets
main_holds crates H L (keygen out) w p b n h = Held-run_keygen H L p b crates out w h
main_holds crates H L (fingerprint_of seed) w p b n h =
    (Keeps-run_fingerprint crates H (Held H p b) seed).at w h
main_holds crates H L (sign_manifest seed input out) w p b (n, (m, _)) h =
    (Keeps-run_sign_manifest H L p b crates seed input out (λ e. n (sym e)) (λ e. m (sym e))).at w h
main_holds crates H L (build seed config previous generated_at out) w p b (n, (m, _)) h =
    (Keeps-run_build H L p b crates seed config previous generated_at out (λ e. n (sym e))
        (λ e. m (sym e))).at
      w h
main_holds crates H L (verify command) w p b n h =
    (Keeps-run_verify crates H (Held H p b) command).at w h

-- ===== src/Cli/Main/Published.antt =====
-- src/main.rs, the four writes of `build-snapshot`: what they leave.
use onym_discovery.Prelude.{
  Text, Bytes, ◌≡◌, ◌≢◌, inl, inr, refl, ◌∙◌, subst, Bool-cases, ◌=ᵗ◌, =ᵗ_iff, arith,
}
use onym_discovery.Crates.{Crates}
use onym_discovery.Build.{BuiltSnapshot}
use onym_discovery.Cli.Host.{Host, IsFileSystem, Reading, contents, not_found, unreadable}
use onym_discovery.Cli.Output.{in_path}
use onym_discovery.Cli.Run.{Outcome, returned, World, Run, write_path}
use onym_discovery.Cli.Run.Frame.{Preorder, Keeps, Keeps-write_path}
use onym_discovery.Cli.Run.Returned.{>>=-returned, write_path-returned}
use onym_discovery.Cli.Names.{retention_path, sig_path}
use onym_discovery.Cli.Names.Apart.{IsApart, different}
use onym_discovery.Cli.Files.{write_unless, write_immutable}
use onym_discovery.Cli.Main.{publish, with_newline, plain}
use onym_discovery.Cli.Main.Held.{Held, Keeps-write_immutable, Keeps-write_other}

-- The file at `q` reads as before.
abbrev AsBefore : (H : Host) → Text → Preorder H.State
AsBefore H q = record {
  Rel = λ s t. H.read t q ≡ H.read s q;
  same = λ s. refl;
  both = λ s t u e f. f ∙ e;
}

module _ (H : Host) (L : IsFileSystem H) where
  Rel-write_unless :
      (q p : Text) (c : Bytes) (w : World H) (r : Reading)
      → p ≢ q
      → H.read (write_unless H p c r w).1.disk q ≡ H.read w.disk q
  unfolding write_unless
  Rel-write_unless q p c w (contents existing) n = elim (Bool-cases (existing =ᵗ c)) [
    | inl t ↦ rw t refl
    | inr t ↦ rw t refl
  ]
  Rel-write_unless q p c w (not_found why) n =
      (Keeps-write_path (AsBefore H q) (in_path p) p c (λ s. L.read-write_other s p q c n)).at w
  Rel-write_unless q p c w (unreadable why) n = refl

  pub before-write_immutable :
      (q p : Text) (c : Bytes) (w : World H)
      → p ≢ q
      → H.read (write_immutable H p c w).1.disk q ≡ H.read w.disk q
  unfolding write_immutable
  before-write_immutable q p c w n = Rel-write_unless q p c w (H.read w.disk p) n

  write_unless-returned :
      (p : Text) (c : Bytes) (w : World H) (r : Reading) {w' : World H}
      → H.read w.disk p ≡ r
      → write_unless H p c r w ≡ (returned tt, w')
      → H.read w'.disk p ≡ contents c
  unfolding write_unless
  write_unless-returned p c w (contents existing) e h = ground (arith, e, h, =ᵗ_iff existing c)
  write_unless-returned p c w (not_found why) {w'} e h =
      L.read-write w.disk w'.disk p c (write_path-returned (in_path p) p c w h)
  write_unless-returned p c w (unreadable why) e h = absurd (ground (arith, h))

  -- Where `write_immutable` comes to its end, the file holds the bytes.
  pub write_immutable-returned :
      (p : Text) (c : Bytes) (w : World H) {w' : World H}
      → write_immutable H p c w ≡ (returned tt, w')
      → H.read w'.disk p ≡ contents c
  unfolding write_immutable
  write_immutable-returned p c w h = write_unless-returned p c w (H.read w.disk p) refl h

-- What a step keeps is there behind it.
pub held :
    (H : Host) (p : Text) (b : Bytes) {A : Type 0} {run : Run H A} {w v : World H} {o : Outcome A}
    → Keeps {H = H} (Held H p b) run
    → run w ≡ (o, v)
    → H.read w.disk p ≡ contents b
    → H.read v.disk p ≡ contents b
held H p b {w} k e h = subst (λ r. H.read r.1.disk p ≡ contents b) e (k.at w h)

module _ (crates : Crates) (H : Host) (L : IsFileSystem H) where
  -- The four files of a publication, of which the latter two are the latest.
  pub record IsPublished (s : H.State) (out catalog_id : Text) (built : BuiltSnapshot) (sig : Text)
      : Type 0 where
    pub retention : H.read s (retention_path H out catalog_id built.sequence) ≡ contents built.bytes
    pub retention_sig :
        H.read s (sig_path H (retention_path H out catalog_id built.sequence))
        ≡ contents (with_newline sig)
    pub latest : H.read s out ≡ contents built.bytes
    pub latest_sig : H.read s (sig_path H out) ≡ contents (with_newline sig)

  module _ (out base catalog_id : Text) (built : BuiltSnapshot) (sig : Text)
      (a : IsApart H L out base catalog_id built.sequence) where
    pub publish-IsPublished :
        (w w' : World H)
        → publish crates H out catalog_id built sig w ≡ (returned tt, w')
        → IsPublished w'.disk out catalog_id built sig
    unfolding publish
    publish-IsPublished w w' h =
        let d = different H L out base catalog_id built.sequence a in
        let path = retention_path H out catalog_id built.sequence in
        let (_, w1, e1, h1) = >>=-returned (write_immutable H path built.bytes) _ w h in
        let (_, w2, e2, h2) =
          >>=-returned (write_immutable H (sig_path H path) (with_newline sig)) _ w1 h1 in
        let (_, w3, e3, h3) = >>=-returned (write_path plain out built.bytes) _ w2 h2 in
        let sibling = write_immutable-returned H L path built.bytes w e1 in
        let sibling2 =
          held H path built.bytes
            (Keeps-write_immutable H L path built.bytes (sig_path H path) (with_newline sig)) e2
            sibling in
        let sibling3 =
          held H path built.bytes
            (Keeps-write_other H L path built.bytes plain out built.bytes d.retention_out) e3
            sibling2 in
        let signed = write_immutable-returned H L (sig_path H path) (with_newline sig) w1 e2 in
        let signed3 =
          held H (sig_path H path) (with_newline sig)
            (Keeps-write_other H L (sig_path H path) (with_newline sig) plain out built.bytes
              d.sig_out)
            e3 signed in
        let latest =
          L.read-write w2.disk w3.disk out built.bytes
            (write_path-returned plain out built.bytes w2 e3) in
        record {
          retention =
              held H path built.bytes
                (Keeps-write_other H L path built.bytes plain (sig_path H out) (with_newline sig)
                  d.retention_out_sig)
                h3 sibling3;
          retention_sig =
              held H (sig_path H path) (with_newline sig)
                (Keeps-write_other H L (sig_path H path) (with_newline sig) plain (sig_path H out)
                  (with_newline sig) d.sig_out_sig)
                h3 signed3;
          latest =
              held H out built.bytes
                (Keeps-write_other H L out built.bytes plain (sig_path H out) (with_newline sig)
                  d.out_out_sig)
                h3 latest;
          latest_sig =
              L.read-write w3.disk w'.disk (sig_path H out) (with_newline sig)
                (write_path-returned plain (sig_path H out) (with_newline sig) w3 h3);
        }

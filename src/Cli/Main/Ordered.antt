-- ===== src/Cli/Main/Ordered.antt =====
-- src/main.rs, the four writes of `build-snapshot`: their order.
use onym_discovery.Prelude.{Text, ◌≡◌, ◌⊎◌, inl, inr, refl, ap, ◌∙◌, subst}
use onym_discovery.Crates.{Crates}
use onym_discovery.Build.{BuiltSnapshot}
use onym_discovery.Cli.Host.{Host, IsFileSystem, contents}
use onym_discovery.Cli.Run.{
  Outcome, returned, failed, panicked, World, Run, chain, ◌>>◌, write_path,
}
use onym_discovery.Cli.Run.Frame.{Keeps-bind}
use onym_discovery.Cli.Names.{retention_path, sig_path}
use onym_discovery.Cli.Names.Apart.{IsApart, different}
use onym_discovery.Cli.Files.{write_immutable}
use onym_discovery.Cli.Main.{publish, with_newline, plain}
use onym_discovery.Cli.Main.Held.{Held, Keeps-write_immutable, Keeps-write_other}
use onym_discovery.Cli.Main.Published.{before-write_immutable, write_immutable-returned, held}

module _ (crates : Crates) (H : Host) (L : IsFileSystem H) where
  module _ (out base catalog_id : Text) (built : BuiltSnapshot) (sig : Text)
      (a : IsApart H L out base catalog_id built.sequence) where
    -- The latest files as they were, or both siblings in place.
    abbrev pub Ordered : (s t : H.State) → Type 0
    Ordered s t =
        ((H.read t out ≡ H.read s out) × (H.read t (sig_path H out) ≡ H.read s (sig_path H out)))
        ⊎ ((H.read t (retention_path H out catalog_id built.sequence) ≡ contents built.bytes)
            × (H.read t (sig_path H (retention_path H out catalog_id built.sequence))
                ≡ contents (with_newline sig)))

    abbrev path : Text
    path = retention_path H out catalog_id built.sequence

    abbrev latest_files : Run H (Unit {0})
    latest_files =
        write_path plain out built.bytes >> write_path plain (sig_path H out) (with_newline sig)

    abbrev Siblings : H.State → Type 0
    Siblings t =
        (H.read t path ≡ contents built.bytes)
        × (H.read t (sig_path H path) ≡ contents (with_newline sig))

    abbrev LatestAs : (s t : H.State) → Type 0
    LatestAs s t =
        (H.read t out ≡ H.read s out) × (H.read t (sig_path H out) ≡ H.read s (sig_path H out))

    latest_files-Siblings : (w : World H) → Siblings w.disk → Siblings (latest_files w).1.disk
    latest_files-Siblings w (f, g) =
        let d = different H L out base catalog_id built.sequence a in
        (
          (Keeps-bind (Held H path built.bytes)
                (Keeps-write_other H L path built.bytes plain out built.bytes d.retention_out)
                λ _.
                  Keeps-write_other H L path built.bytes plain (sig_path H out) (with_newline sig)
                    d.retention_out_sig).at
              w f,
          (Keeps-bind (Held H (sig_path H path) (with_newline sig))
                (Keeps-write_other H L (sig_path H path) (with_newline sig) plain out built.bytes
                  d.sig_out)
                λ _.
                  Keeps-write_other H L (sig_path H path) (with_newline sig) plain (sig_path H out)
                    (with_newline sig) d.sig_out_sig).at
              w g,
        )

    unmoved :
        (w v : World H) → (write_immutable H path built.bytes w).1 ≡ v → LatestAs w.disk v.disk
    unmoved w v e =
        let d = different H L out base catalog_id built.sequence a in
        (
          subst (λ x. H.read x.disk out ≡ H.read w.disk out) e
              (before-write_immutable H L out path built.bytes w d.retention_out),
          subst (λ x. H.read x.disk (sig_path H out) ≡ H.read w.disk (sig_path H out)) e
              (before-write_immutable H L (sig_path H out) path built.bytes w d.retention_out_sig),
        )

    still :
        (s : H.State) (w v : World H)
        → LatestAs s w.disk
        → (write_immutable H (sig_path H path) (with_newline sig) w).1 ≡ v
        → LatestAs s v.disk
    still s w v (f, g) e =
        let d = different H L out base catalog_id built.sequence a in
        (
          subst (λ x. H.read x.disk out ≡ H.read w.disk out) e
                (before-write_immutable H L out (sig_path H path) (with_newline sig) w d.sig_out)
              ∙ f,
          subst (λ x. H.read x.disk (sig_path H out) ≡ H.read w.disk (sig_path H out)) e
                (before-write_immutable H L (sig_path H out) (sig_path H path) (with_newline sig) w
                  d.sig_out_sig)
              ∙ g,
        )

    second_sibling :
        (s : H.State) (w : World H) (r : Outcome (Unit {0}) × World H)
        → LatestAs s w.disk
        → H.read w.disk path ≡ contents built.bytes
        → write_immutable H (sig_path H path) (with_newline sig) w ≡ r
        → LatestAs s (chain r (λ _. latest_files)).1.disk
          ⊎ Siblings (chain r (λ _. latest_files)).1.disk
    second_sibling s w (returned u, v) old f e = inr (
        latest_files-Siblings v (
          held H path built.bytes
              (Keeps-write_immutable H L path built.bytes (sig_path H path) (with_newline sig)) e f,
          write_immutable-returned H L (sig_path H path) (with_newline sig) w e,
        ))
    second_sibling s w (failed x, v) old f e = inl (still s w v old (ap (λ r. r.1) e))
    second_sibling s w (panicked, v) old f e = inl (still s w v old (ap (λ r. r.1) e))

    first_sibling :
        (w : World H) (r : Outcome (Unit {0}) × World H)
        → write_immutable H path built.bytes w ≡ r
        → LatestAs w.disk
            (chain r
              (λ _. write_immutable H (sig_path H path) (with_newline sig) >> latest_files)).1.disk
          ⊎ Siblings
              (chain r (λ _.
                write_immutable H (sig_path H path) (with_newline sig) >> latest_files)).1.disk
    first_sibling w (returned u, v) e =
        second_sibling w.disk v (write_immutable H (sig_path H path) (with_newline sig) v)
          (unmoved w v (ap (λ r. r.1) e)) (write_immutable-returned H L path built.bytes w e) refl
    first_sibling w (failed x, v) e = inl (unmoved w v (ap (λ r. r.1) e))
    first_sibling w (panicked, v) e = inl (unmoved w v (ap (λ r. r.1) e))

-- The siblings that name a publication are written before the latest files: however the four writes end,
-- the latest document and signature are as they were, or both siblings hold the publication. This is
-- where the name of `out` is neither that of the publication's sibling nor that of the sibling's
-- signature, and has at least three bytes and no slash, the catalog id is a token, and no link joins
-- files.
pub publish-Ordered :
    (crates : Crates) (H : Host) (L : IsFileSystem H) (out base catalog_id : Text)
    (built : BuiltSnapshot) (sig : Text) (a : IsApart H L out base catalog_id built.sequence)
    (w : World H)
    → Ordered crates H L out base catalog_id built sig a w.disk
        (publish crates H out catalog_id built sig w).1.disk
unfolding publish
publish-Ordered crates H L out base catalog_id built sig a w =
    first_sibling crates H L out base catalog_id built sig a w
      (write_immutable H (retention_path H out catalog_id built.sequence) built.bytes w) refl

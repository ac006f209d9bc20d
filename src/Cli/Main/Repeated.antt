-- ===== src/Cli/Main/Repeated.antt =====
-- src/main.rs, `write_immutable` in `build-snapshot`: a later publication of one sequence.
use onym_discovery.Prelude.{
  Text, Bytes, ◌≡◌, refl, sym, ◌=ᵗ◌, =ᵗ_iff, Bool-cases, inl, inr, ◌⊎◌, if◌then◌else◌, List, [],
  ◌∷◌, All, Absent,
}
use mathlib.Core.List.{append_cancel_right}
use onym_discovery.Crates.{Crates}
use onym_discovery.Build.{BuiltSnapshot}
use onym_discovery.Cli.Host.{Host, IsFileSystem, contents}
use onym_discovery.Cli.Output.{sibling_differs}
use onym_discovery.Cli.Run.{returned, failed, World, Run, write_path, ◌>>◌}
use onym_discovery.Cli.Names.{retention_path, sig_path}
use onym_discovery.Cli.Names.Apart.{IsApart}
use onym_discovery.Cli.Files.{write_unless, write_immutable}
use onym_discovery.Cli.Main.{Command, main, publish, with_newline, plain}
use onym_discovery.Cli.Main.Held.{main_holds, targets}
use onym_discovery.Cli.Main.Published.{publish-IsPublished}

module _ (H : Host) (p : Text) (c b : Bytes) (w : World H) where
  write_immutable-existing :
      H.read w.disk p ≡ contents b
      → write_immutable H p c w
        ≡ (if b =ᵗ c then (returned tt, w) else (failed (sibling_differs p), w))
  unfolding write_immutable write_unless
  write_immutable-existing e = elim (Bool-cases (b =ᵗ c)) [
    | inl t ↦ rw (e, t) refl
    | inr t ↦ rw (e, t) refl
  ]

-- Where the commands leave the world, run one behind the other, whether they fail or not.
abbrev pub run_all : (crates : Crates) (H : Host) → List Command → World H → World H
run_all crates H [] w = w
run_all crates H (command ∷ commands) w = run_all crates H commands (main crates H command w).1

-- None of the commands is a `sign-manifest` or `build-snapshot` that has `p` as a target.
abbrev pub Spare : Host → Text → List Command → Type 0
Spare H p commands = All (λ command. Absent p (targets H command)) commands

run_all-holds :
    (crates : Crates) (H : Host)
    → IsFileSystem H
    → (commands : List Command) (w : World H) (p : Text) (b : Bytes) → Spare H p commands
    → H.read w.disk p ≡ contents b
    → H.read (run_all crates H commands w).disk p ≡ contents b
run_all-holds crates H L [] w p b n h = h
run_all-holds crates H L (command ∷ commands) w p b (n, m) h =
    run_all-holds crates H L commands (main crates H command w).1 p b m
      (main_holds crates H L command w p b n h)

-- The two writes of a publication that follow those of its siblings.
abbrev pub latest_only : (H : Host) → Text → Bytes → Text → Run H (Unit {0})
latest_only H out bytes sig =
    write_path plain out bytes >> write_path plain (sig_path H out) (with_newline sig)

-- Behind siblings that exist, a publication is the one that they hold, or it is refused.
publish-existing :
    (crates : Crates) (H : Host) (out catalog_id : Text) (built : BuiltSnapshot) (sig : Text)
    (v : World H) (p : Text) (bytes : Bytes) (first_sig : Text)
    → retention_path H out catalog_id built.sequence ≡ p
    → H.read v.disk p ≡ contents bytes
    → H.read v.disk (sig_path H p) ≡ contents (with_newline first_sig)
    → ((built.bytes ≡ bytes)
        × (sig ≡ first_sig)
        × (publish crates H out catalog_id built sig v ≡ latest_only H out built.bytes sig v))
      ⊎ ((q : Text) × (publish crates H out catalog_id built sig v
            ≡ (failed (sibling_differs q), v)))
unfolding publish
publish-existing crates H out catalog_id built sig v p bytes first_sig at found found_sig =
    rw (at, write_immutable-existing H p built.bytes bytes v found)
      (elim (Bool-cases (bytes =ᵗ built.bytes)) [
        | inl e ↦
            rw
              (
                e,
                write_immutable-existing H (sig_path H p) (with_newline sig)
                    (with_newline first_sig) v found_sig,
              )
              (elim (Bool-cases (with_newline first_sig =ᵗ with_newline sig)) [
                | inl f ↦ inl (
                  sym ((=ᵗ_iff bytes built.bytes).0 e),
                  sym (
                      append_cancel_right first_sig sig (10 ∷ [])
                        ((=ᵗ_iff (with_newline first_sig) (with_newline sig)).0 f)),
                  rw f refl,
                )
                | inr f ↦ inr (sig_path H p, rw f refl)
              ])
        | inr e ↦ inr (p, rw e refl)
      ])

-- Once a publication has come to its end, another of that catalog and sequence whose sibling has the same
-- path has the same bytes and the same signature and writes its latest files alone, or it fails and
-- leaves the disk and what was printed as they were: also behind other commands, failed ones
-- included, none of which is a `sign-manifest` or `build-snapshot` with the sibling or its signature
-- as its `out` or the signature beside that. The name of the first publication's `out` is neither the
-- sibling's nor its signature's and has at least three bytes and no slash, its catalog id is a token,
-- and no link joins files.
pub publish_again :
    (crates : Crates) (H : Host) (L : IsFileSystem H) (out base catalog_id : Text)
    (built : BuiltSnapshot) (sig : Text)
    → IsApart H L out base catalog_id built.sequence
    → (w w' : World H) → publish crates H out catalog_id built sig w ≡ (returned tt, w')
    → (commands : List Command) → Spare H (retention_path H out catalog_id built.sequence) commands
    → Spare H (sig_path H (retention_path H out catalog_id built.sequence)) commands
    → (later : Text) (rebuilt : BuiltSnapshot) (resigned : Text)
    → retention_path H later catalog_id rebuilt.sequence
      ≡ retention_path H out catalog_id built.sequence
    → ((rebuilt.bytes ≡ built.bytes)
        × (resigned ≡ sig)
        × (publish crates H later catalog_id rebuilt resigned (run_all crates H commands w')
            ≡ latest_only H later rebuilt.bytes resigned (run_all crates H commands w')))
      ⊎ ((q : Text) × (publish crates H later catalog_id rebuilt resigned
              (run_all crates H commands w')
            ≡ (failed (sibling_differs q), run_all crates H commands w')))
publish_again crates H L out base catalog_id built sig a w w' h commands n m later rebuilt resigned
      same =
    let path = retention_path H out catalog_id built.sequence in
    let done = publish-IsPublished crates H L out base catalog_id built sig a w w' h in
    publish-existing crates H later catalog_id rebuilt resigned (run_all crates H commands w') path
      built.bytes sig same (run_all-holds crates H L commands w' path built.bytes n done.retention)
      (run_all-holds crates H L commands w' (sig_path H path) (with_newline sig) m
        done.retention_sig)

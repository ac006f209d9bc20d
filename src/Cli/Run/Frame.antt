-- ===== src/Cli/Run/Frame.antt =====
-- What a command leaves of the disk, step by step: a relation between the states before and after that
-- each step keeps to.
use onym_discovery.Prelude.{Text, Bytes, ℕ, Option, none, some}
use onym_discovery.Result.{Result}
use onym_discovery.Cli.Host.{Host, Reading, contents, not_found, unreadable}
use onym_discovery.Cli.Output.{Line, Failure}
use onym_discovery.Cli.Run.{
  Outcome, returned, failed, panicked, World, Run, chain, given, settle, ◌>>=◌, return, fail, lift,
  print, read_path, write_path, set_mode_path,
}

-- A preorder on states.
pub record Preorder (S : Type 0) : Type 1 where
  pub Rel : S → S → Type 0
  pub same : (s : S) → Rel s s
  pub both : (s t u : S) → Rel s t → Rel t u → Rel s u

module _ {H : Host} (P : Preorder H.State) where
  open P use {Rel, same, both}

  pub record Keeps {A : Type 0} (run : Run H A) : Type 0 where
    pub at : (w : World H) → Rel w.disk (run w).1.disk

  Rel-chain :
      {A B : Type 0} (s : H.State) (r : Outcome A × World H) (next : A → Run H B)
      → Rel s r.1.disk
      → ((a : A) → Keeps (next a))
      → Rel s (chain r next).1.disk
  Rel-chain s (returned a, v) next h n = both s v.disk (next a v).1.disk h ((n a).at v)
  Rel-chain s (failed e, v) next h n = h
  Rel-chain s (panicked, v) next h n = h

  pub Keeps-bind :
      {A B : Type 0} {run : Run H A} {next : A → Run H B}
      → Keeps run
      → ((a : A) → Keeps (next a))
      → Keeps (run >>= next)
  Keeps-bind {run} {next} k n = record { at = λ w. Rel-chain w.disk (run w) next (k.at w) n }

  Rel-settle :
      (wrap : Failure → Failure) (w : World H) (r : H.State × Option Text)
      → Rel w.disk r.0
      → Rel w.disk (settle wrap r w).1.disk
  unfolding settle
  Rel-settle wrap w (s, none) h = h
  Rel-settle wrap w (s, some e) h = h

  pub Keeps-return : {A : Type 0} (a : A) → Keeps (return a)
  Keeps-return a = record { at = λ w. same w.disk }

  pub Keeps-fail : {A : Type 0} (e : Failure) → Keeps {A = A} (fail e)
  Keeps-fail e = record { at = λ w. same w.disk }

  pub Keeps-print : (line : Line) → Keeps (print line)
  unfolding print
  Keeps-print line = record { at = λ w. same w.disk }

  pub Keeps-lift : {A : Type 0} (r : Result A) → Keeps (lift r)
  unfolding lift
  Keeps-lift (Result.ok a) = record { at = λ w. same w.disk }
  Keeps-lift (Result.err e) = record { at = λ w. same w.disk }
  Keeps-lift Result.panic = record { at = λ w. same w.disk }

  Rel-given : (w : World H) (path : Text) (r : Reading) → Rel w.disk (given path r w).1.disk
  unfolding given
  Rel-given w path (contents b) = same w.disk
  Rel-given w path (not_found e) = same w.disk
  Rel-given w path (unreadable e) = same w.disk

  pub Keeps-read_path : (path : Text) → Keeps (read_path path)
  unfolding read_path
  Keeps-read_path path = record { at = λ w. Rel-given w path (H.read w.disk path) }

  -- A write, whether it fails or not.
  pub Keeps-write_path :
      (wrap : Failure → Failure) (path : Text) (bytes : Bytes)
      → ((s : H.State) → Rel s (H.write s path bytes).0)
      → Keeps (write_path wrap path bytes)
  unfolding write_path
  Keeps-write_path wrap path bytes h = record {
    at = λ w. Rel-settle wrap w (H.write w.disk path bytes) (h w.disk);
  }

  pub Keeps-set_mode_path :
      (path : Text) (mode : ℕ)
      → ((s : H.State) → Rel s (H.set_mode s path mode).0)
      → Keeps (set_mode_path path mode)
  unfolding set_mode_path
  Keeps-set_mode_path path mode h = record {
    at = λ w. Rel-settle (λ e. e) w (H.set_mode w.disk path mode) (h w.disk);
  }

-- ===== src/Cli/Run.antt =====
-- src/main.rs: the steps of a command, over the system's state and what was printed.
pub mod Frame
pub mod Returned
pub mod Calm
use onym_discovery.Prelude.{Text, Bytes, List, [], ◌∷◌, ◌++◌, Option, none, some, ℕ, Bool}
use onym_discovery.Result
use onym_discovery.Result.{Result}
use onym_discovery.Crates.{Attempt, done}
use onym_discovery.Crates
use onym_discovery.Cli.Host.{Host, Reading, contents, not_found, unreadable}
use onym_discovery.Cli.Output.{Line, Failure, library, os, in_path}

pub data Outcome (A : Type 0) : Type 0 where
  panicked : Outcome A
  failed : Failure → Outcome A
  returned : A → Outcome A

pub record World (H : Host) : Type 0 where
  pub disk : H.State
  pub printed : List Line

abbrev pub Run : Host → Type 0 → Type 0
Run H A = World H → Outcome A × World H

module _ {H : Host} where
  abbrev pub chain : {A B : Type 0} → Outcome A × World H → (A → Run H B) → Outcome B × World H
  chain (returned a, w) next = next a w
  chain (failed e, w) next = (failed e, w)
  chain (panicked, w) next = (panicked, w)

  infixl 5 ◌>>=◌ ◌>>◌
  abbrev pub ◌>>=◌ : {A B : Type 0} → Run H A → (A → Run H B) → Run H B
  ◌>>=◌ run next w = chain (run w) next

  abbrev pub ◌>>◌ : {A B : Type 0} → Run H A → Run H B → Run H B
  ◌>>◌ run next w = chain (run w) (λ _. next)

  abbrev pub return : {A : Type 0} → A → Run H A
  return a w = (returned a, w)

  abbrev pub fail : {A : Type 0} → Failure → Run H A
  fail e w = (failed e, w)

  -- `?` on a result of the library
  unfoldable pub lift : {A : Type 0} → Result A → Run H A
  lift (Result.ok a) w = (returned a, w)
  lift (Result.err e) w = (failed (library e), w)
  lift Result.panic w = (panicked, w)

  -- `println!`
  unfoldable pub print : Line → Run H (Unit {0})
  print line w = (returned tt, record w { printed = w.printed ++ line ∷ [] })

  -- `std::fs::read(path).with_context(|| path.display().to_string())?`
  unfoldable pub given : Text → Reading → Run H Bytes
  given path (contents b) w = (returned b, w)
  given path (not_found e) w = (failed (in_path path (os e)), w)
  given path (unreadable e) w = (failed (in_path path (os e)), w)

  unfoldable pub read_path : Text → Run H Bytes
  unfolding given
  read_path path w = given path (H.read w.disk path) w

  unfoldable pub settle :
      (Failure → Failure) → H.State × Option Text → World H → Outcome (Unit {0}) × World H
  settle wrap (s, none) w = (returned tt, record w { disk = s })
  settle wrap (s, some e) w = (failed (wrap (os e)), record w { disk = s })

  -- `std::fs::write(path, bytes)?`, its error under `wrap`
  unfoldable pub write_path : (Failure → Failure) → Text → Bytes → Run H (Unit {0})
  unfolding settle
  write_path wrap path bytes w = settle wrap (H.write w.disk path bytes) w

  -- `std::fs::set_permissions(path, Permissions::from_mode(mode))?`
  unfoldable pub set_mode_path : Text → ℕ → Run H (Unit {0})
  unfolding settle
  set_mode_path path mode w = settle (λ e. e) (H.set_mode w.disk path mode) w

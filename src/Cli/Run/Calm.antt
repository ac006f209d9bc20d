-- ===== src/Cli/Run/Calm.antt =====
-- src/main.rs: steps of a command that do not panic.
use onym_discovery.Prelude.{Text, ◌≢◌, refl}
use onym_discovery.Result.{Result, Returns}
use onym_discovery.Cli.Host.{Host, Reading, contents, not_found, unreadable}
use onym_discovery.Cli.Output.{Line, Failure}
use onym_discovery.Cli.Run.{
  Outcome, returned, failed, panicked, World, Run, chain, given, lift, print, read_path,
}

module _ {H : Host} where
  abbrev pub Calm : {A : Type 0} → Outcome A × World H → Type 0
  Calm r = r.0 ≢ panicked

  pub Calm-returned : {A : Type 0} (a : A) (w : World H) → Calm (returned a, w)
  Calm-returned a w = λ p. cc

  pub Calm-failed : {A : Type 0} (e : Failure) (w : World H) → Calm {A = A} (failed e, w)
  Calm-failed e w = λ p. cc

  pub Calm-chain :
      {A B : Type 0} (r : Outcome A × World H) (next : A → Run H B)
      → Calm r
      → ((a : A) (v : World H) → Calm (next a v))
      → Calm (chain r next)
  Calm-chain (returned a, v) next h n = n a v
  Calm-chain (failed e, v) next h n = Calm-failed e v
  Calm-chain (panicked, v) next h n = absurd (h refl)

  pub Calm-lift : {A : Type 0} (r : Result A) (w : World H) → Returns r → Calm (lift r w)
  unfolding lift
  Calm-lift (Result.ok a) w h = λ p. cc
  Calm-lift (Result.err e) w h = λ p. cc
  Calm-lift Result.panic w h = absurd (h refl)

  pub Calm-print : (line : Line) (w : World H) → Calm (print line w)
  unfolding print
  Calm-print line w = λ p. cc

  Calm-given : (path : Text) (r : Reading) (w : World H) → Calm (given path r w)
  unfolding given
  Calm-given path (contents b) w = λ p. cc
  Calm-given path (not_found e) w = λ p. cc
  Calm-given path (unreadable e) w = λ p. cc

  pub Calm-read_path : (path : Text) (w : World H) → Calm (read_path path w)
  unfolding read_path
  Calm-read_path path w = Calm-given path (H.read w.disk path) w

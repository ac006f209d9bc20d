-- ===== src/Cli/Run/Returned.antt =====
-- What is known of a command that came to its end: of each step, that it returned.
use onym_discovery.Prelude.{subst, Text, Bytes, ◌≡◌, refl, Option, none, some, arith}
use onym_discovery.Result.{Result}
use onym_discovery.Cli.Host.{Host, Reading, contents, not_found, unreadable}
use onym_discovery.Cli.Output.{Line, Failure}
use onym_discovery.Cli.Run.{
  Outcome, returned, failed, panicked, World, Run, chain, given, settle, ◌>>=◌, lift, print,
  read_path, write_path,
}

module _ {H : Host} where
  chain-returned :
      {A B : Type 0} (r : Outcome A × World H) (next : A → Run H B) (b : B) (w' : World H)
      → chain r next ≡ (returned b, w')
      → (a : A) × (v : World H) × (r ≡ (returned a, v)) × (next a v ≡ (returned b, w'))
  chain-returned (returned a, v) next b w' h = (a, v, refl, h)
  chain-returned (failed e, v) next b w' h = absurd (ground (arith, h))
  chain-returned (panicked, v) next b w' h = absurd (ground (arith, h))

  pub >>=-returned :
      {A B : Type 0} (run : Run H A) (next : A → Run H B) (w : World H) {b : B} {w' : World H}
      → (run >>= next) w ≡ (returned b, w')
      → (a : A) × (v : World H) × (run w ≡ (returned a, v)) × (next a v ≡ (returned b, w'))
  >>=-returned run next w {b} {w'} h = chain-returned (run w) next b w' h

  pub lift-returned :
      {A : Type 0} (r : Result A) (w : World H) {a : A} {w' : World H}
      → lift r w ≡ (returned a, w')
      → (r ≡ Result.ok a) × (w' ≡ w)
  unfolding lift
  lift-returned (Result.ok x) w h = ground (arith, h)
  lift-returned (Result.err e) w h = absurd (ground (arith, h))
  lift-returned Result.panic w h = absurd (ground (arith, h))

  given-returned :
      (path : Text) (r : Reading) (w : World H) {a : Bytes} {w' : World H}
      → given path r w ≡ (returned a, w')
      → (r ≡ contents a) × (w' ≡ w)
  unfolding given
  given-returned path (contents b) w h = ground (arith, h)
  given-returned path (not_found e) w h = absurd (ground (arith, h))
  given-returned path (unreadable e) w h = absurd (ground (arith, h))

  pub read_path-returned :
      (path : Text) (w : World H) {a : Bytes} {w' : World H}
      → read_path path w ≡ (returned a, w')
      → (H.read w.disk path ≡ contents a) × (w' ≡ w)
  unfolding read_path
  read_path-returned path w h = given-returned path (H.read w.disk path) w h

  settle-returned :
      (wrap : Failure → Failure) (r : H.State × Option Text) (w : World H) {w' : World H}
      → settle wrap r w ≡ (returned tt, w')
      → (r.1 ≡ none) × (w'.disk ≡ r.0)
  unfolding settle
  settle-returned wrap (s, none) w h = (refl, ground (arith, h))
  settle-returned wrap (s, some e) w h = absurd (ground (arith, h))

  pub write_path-returned :
      (wrap : Failure → Failure) (path : Text) (bytes : Bytes) (w : World H) {w' : World H}
      → write_path wrap path bytes w ≡ (returned tt, w')
      → (H.write w.disk path bytes ≡ (w'.disk, none))
  unfolding write_path
  write_path-returned wrap path bytes w h =
      let (e, d) = settle-returned wrap (H.write w.disk path bytes) w h in ground (arith, e, d)

  pub print-returned :
      (line : Line) (w : World H) {a : Unit {0}} {w' : World H}
      → print line w ≡ (returned a, w')
      → w'.disk ≡ w.disk
  unfolding print
  print-returned line w h = ground (arith, h)

-- The same, for a step with what follows it.
module _ {H : Host} {A B : Type 0} where
  pub lift-bind :
      (r : Result A) (next : A → Run H B) (w : World H) {b : B} {w' : World H}
      → (lift r >>= next) w ≡ (returned b, w')
      → (a : A) × (r ≡ Result.ok a) × (next a w ≡ (returned b, w'))
  lift-bind r next w {b} {w'} h =
      let (a, v, e, k) = >>=-returned (lift r) next w h in
      let (same, stay) = lift-returned r w e in
      (a, same, subst (λ u. next a u ≡ (returned b, w')) stay k)

module _ {H : Host} {B : Type 0} where
  pub read_path-bind :
      (path : Text) (next : Bytes → Run H B) (w : World H) {b : B} {w' : World H}
      → (read_path path >>= next) w ≡ (returned b, w')
      → (a : Bytes) × (H.read w.disk path ≡ contents a) × (next a w ≡ (returned b, w'))
  read_path-bind path next w {b} {w'} h =
      let (a, v, e, k) = >>=-returned (read_path path) next w h in
      let (same, stay) = read_path-returned path w e in
      (a, same, subst (λ u. next a u ≡ (returned b, w')) stay k)

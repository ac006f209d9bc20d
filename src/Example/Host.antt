-- ===== src/Example/Host.antt =====
-- A stand-in for the system: one flat directory, in which a path is a name.
use onym_discovery.Prelude.{
  ℕ, zero, suc, Text, Bytes, Bool, true, false, none, some, List, [], ◌∷◌, ◌=ᵗ◌, =ᵗ_iff, =ᵗ_refl,
  if◌then◌else◌, ◌≡◌, refl, arith,
}
use onym_discovery.Cli.Host.{Host, IsFileSystem, Reading, contents, not_found, unreadable}

abbrev pub Files : Type 0
Files = List (Text × Bytes)

look : Text → Files → Reading
look p [] = not_found []
look p ((q, b) ∷ fs) = if q =ᵗ p then contents b else look p fs

put : Text → Bytes → Files → Files
put p b [] = (p, b) ∷ []
put p b ((q, c) ∷ fs) = if q =ᵗ p then (q, b) ∷ fs else (q, c) ∷ put p b fs

is_found : Reading → Bool
is_found (contents b) = true
is_found (not_found e) = false
is_found (unreadable e) = false

sevens : ℕ → Bytes
sevens zero = []
sevens (suc n) = 7 ∷ sevens n

look-put :
    (p q : Text) (b : Bytes) (fs : Files)
    → look q (put p b fs) ≡ (if p =ᵗ q then contents b else look q fs)
unfolding look put
look-put p q b [] = refl
look-put p q b ((r, c) ∷ fs) = ground (arith, look-put p q b fs, =ᵗ_iff p q, =ᵗ_iff r p, =ᵗ_iff r q)

pub host : ℕ → Host
host now = record {
  State = Files;
  read = λ s p. look p s;
  write = λ s p b. (put p b s, none);
  set_mode = λ s p mode. (s, none);
  exists = λ s p. is_found (look p s);
  file_name = λ p. some p;
  with_file_name = λ p name. name;
  parent = λ p. some [];
  join = λ dir p. p;
  now_utc = now;
  fill_bytes = sevens;
}

pub host-IsFileSystem : (now : ℕ) → IsFileSystem (host now)
unfolding host is_found
host-IsFileSystem now = record {
  read-write = λ s s' p b e. ground (arith, e, look-put p p b s, =ᵗ_refl p);
  read-write_other = λ s p q b n. ground (arith, look-put p q b s, =ᵗ_iff p q);
  read-set_mode = λ s p q mode. refl;
  exists-read = λ s p b e. rw e refl;
  file_name-with_file_name = λ p name n. refl;
}

-- Everything above, for the `unfolding` line of a test.
unfoldable pub flat : Unit {0}
unfolding host look put is_found sevens
flat = tt

-- ===== src/Cli/Main/Keygen.antt =====
-- src/main.rs, `keygen`: the seed file is new, and holds the key whose identity was printed.
use onym_discovery.Prelude.{
  Text, Bytes, ℕ, true, false, Option, none, some, List, [], ◌∷◌, ◌++◌, ◌≡◌, sym, ap, ◌∙◌, subst,
  arith,
}
use mathlib.Core.List.{append_assoc}
use onym_discovery.Result.{ok}
use onym_discovery.Crates.{Crates}
use onym_discovery.Crates.Laws.{TextLaws}
use onym_discovery.Keys.{generate_seed, signing_key_from_seed_hex, operator_id, fingerprint}
use onym_discovery.Keys.Seed.{IsSeed, signing_key-hex_encode, signing_key-seed_file, seed_file-utf8}
use onym_discovery.Cli.Host.{Host, IsFileSystem, contents}
use onym_discovery.Cli.Output.{Line, operator_line, fingerprint_line, seed_line}
use onym_discovery.Cli.Run.{
  returned, World, settle, given, ◌>>◌, lift, print, read_path, write_path, set_mode_path,
}
use onym_discovery.Cli.Run.Returned.{>>=-returned, lift-bind, write_path-returned}
use onym_discovery.Cli.Files.{as_text, load_key}
use onym_discovery.Cli.Main.{
  keygen, fingerprint_of, refuse_existing, write_seed, run_fingerprint, print_identity,
  with_newline, plain, key_mode, main,
}

module _ (crates : Crates) (H : Host) where
  abbrev pub identity : Bytes → List Line
  identity key =
      operator_line (operator_id crates (crates.verifying_key key))
      ∷ fingerprint_line (fingerprint crates (crates.verifying_key key))
      ∷ []

  settle-printed :
      (r : H.State × Option Text) (w : World H) {w' : World H}
      → settle (λ e. e) r w ≡ (returned tt, w')
      → (w'.printed ≡ w.printed) × (w'.disk ≡ r.0)
  unfolding settle
  settle-printed (s, none) w h = ground (arith, h)
  settle-printed (s, some e) w h = absurd (ground (arith, h))

  write-printed :
      (path : Text) (bytes : Bytes) (w : World H) {w' : World H}
      → write_path plain path bytes w ≡ (returned tt, w')
      → w'.printed ≡ w.printed
  unfolding write_path
  write-printed path bytes w h = (settle-printed (H.write w.disk path bytes) w h).0

  mode-printed :
      (path : Text) (mode : ℕ) (w : World H) {w' : World H}
      → set_mode_path path mode w ≡ (returned tt, w')
      → (w'.printed ≡ w.printed) × (w'.disk ≡ (H.set_mode w.disk path mode).0)
  unfolding set_mode_path
  mode-printed path mode w h = settle-printed (H.set_mode w.disk path mode) w h

  prints :
      (key : Bytes) (line : Line) (w : World H) {w' : World H}
      → (print_identity crates H key >> print line) w ≡ (returned tt, w')
      → (w'.printed ≡ w.printed ++ (identity key ++ line ∷ [])) × (w'.disk ≡ w.disk)
  unfolding print
  prints key line w {w'} h =
      let e = sym (ap (λ p. p.1) h) in
      (
        ap (λ u. u.printed) e
            ∙ append_assoc
                (w.printed ++ operator_line (operator_id crates (crates.verifying_key key)) ∷ [])
                (fingerprint_line (fingerprint crates (crates.verifying_key key)) ∷ []) (line ∷ [])
            ∙ append_assoc w.printed
                (operator_line (operator_id crates (crates.verifying_key key)) ∷ [])
                (fingerprint_line (fingerprint crates (crates.verifying_key key)) ∷ line ∷ []),
        ap (λ u. u.disk) e,
      )

  -- What the run leaves: nothing was there before, and the file holds the seed of the key that was printed.
  pub record IsFresh (out : Text) (seed : Bytes) (w w' : World H) : Type 0 where
    pub absent : H.exists w.disk out ≡ false
    pub stored : H.read w'.disk out ≡ contents (with_newline (crates.hex_encode seed))
    pub printed : w'.printed ≡ w.printed ++ (identity seed ++ seed_line out ∷ [])

  refuse-returned :
      (out : Text) (w : World H) {a : Unit {0}} {v : World H}
      → refuse_existing crates H out w ≡ (returned a, v)
      → (H.exists w.disk out ≡ false) × (v ≡ w)
  refuse-returned out w h = ground (arith, h)

  write_seed-IsFresh :
      IsFileSystem H
      → TextLaws crates
      → IsSeed (generate_seed H.fill_bytes)
      → (out : Text) (w : World H) {w' : World H} → write_seed crates H out w ≡ (returned tt, w')
      → H.exists w.disk out ≡ false
      → IsFresh out (generate_seed H.fill_bytes) w w'
  unfolding write_seed
  write_seed-IsFresh files laws good out w {w'} h absent =
      let seed = generate_seed H.fill_bytes in
      let (key, is, h0) =
        lift-bind (signing_key_from_seed_hex crates (crates.hex_encode seed)) _ w h in
      let (_, w1, wrote, h1) =
        >>=-returned (write_path plain out (with_newline (crates.hex_encode seed))) _ w h0 in
      let (_, w2, moded, h2) = >>=-returned (set_mode_path out key_mode) _ w1 h1 in
      let same : key ≡ seed = ground (arith, signing_key-hex_encode crates laws seed good, is) in
      let wrote_disk =
        write_path-returned plain out (with_newline (crates.hex_encode seed)) w wrote in
      let (silent, kept) = mode-printed out key_mode w1 moded in
      let (lines, still) = prints key (seed_line out) w2 h2 in
      record {
        absent = absent;
        stored =
            ap (λ s. H.read s out) (still ∙ kept)
            ∙ files.read-set_mode w1.disk out out key_mode
            ∙ files.read-write w.disk w1.disk out (with_newline (crates.hex_encode seed))
                wrote_disk;
        printed =
            lines
            ∙ ap (λ k. w2.printed ++ (identity k ++ seed_line out ∷ [])) same
            ∙ ap (λ p. p ++ (identity seed ++ seed_line out ∷ []))
                (silent ∙ write-printed out (with_newline (crates.hex_encode seed)) w wrote);
      }

  fingerprint-of_seed :
      (path : Text) (bytes seed : Bytes) (w : World H)
      → H.read w.disk path ≡ contents bytes
      → crates.is_utf8 bytes ≡ true
      → signing_key_from_seed_hex crates bytes ≡ ok seed
      → run_fingerprint crates H path w
        ≡ (returned tt, record w { printed = w.printed ++ identity seed })
  unfolding run_fingerprint load_key read_path given as_text lift print
  fingerprint-of_seed path bytes seed w found text is =
      rw (found, text, is)
        (ap (λ p. (returned tt, record w { printed = p }))
          (append_assoc w.printed
            (operator_line (operator_id crates (crates.verifying_key seed)) ∷ [])
            (fingerprint_line (fingerprint crates (crates.verifying_key seed)) ∷ [])))

  -- On files that no link joins, with hexadecimal text that is read as it is written and 32 bytes from the
  -- random source, a `keygen` that comes to its end wrote a file that was not there: it holds the seed
  -- whose operator and fingerprint were printed, and `fingerprint` on it prints these same two lines and
  -- changes nothing.
  pub keygen-fingerprint :
      IsFileSystem H
      → TextLaws crates
      → IsSeed (generate_seed H.fill_bytes)
      → (out : Text) (w w' : World H) → main crates H (keygen out) w ≡ (returned tt, w')
      → IsFresh out (generate_seed H.fill_bytes) w w'
        × (main crates H (fingerprint_of out) w' ≡ (
          returned tt,
          record w' { printed = w'.printed ++ identity (generate_seed H.fill_bytes) },
        ))
  unfolding main
  keygen-fingerprint files laws good out w w' h =
      let (_, v, e, k) = >>=-returned (refuse_existing crates H out) _ w h in
      let (absent, same) = refuse-returned out w e in
      let fresh =
        write_seed-IsFresh files laws good out w
          (subst (λ u. write_seed crates H out u ≡ (returned tt, w')) same k) absent in
      (
        fresh,
        fingerprint-of_seed out _ (generate_seed H.fill_bytes) w' fresh.stored
            (seed_file-utf8 crates laws _ good) (signing_key-seed_file crates laws _ good),
      )

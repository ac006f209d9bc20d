-- ===== src/Cli/Main/Signed.antt =====
-- src/main.rs, `sign-manifest`: what it leaves on the disk, and that its two files agree.
use onym_discovery.Prelude.{
  Text, Bytes, some, Bool, ◌≡◌, ◌≢◌, refl, sym, ap, subst, ◌∙◌, [], ◌∷◌, ◌++◌, arith,
}
use onym_discovery.Result.{ok}
use onym_discovery.Json.{Members, object}
use onym_discovery.Json.Regular.{Regular}
use onym_discovery.Crates.{Crates, done, parse_value}
use onym_discovery.Crates.Laws.{JsonLaws, KeyLaws, TextLaws, Base64Laws, max_depth}
use onym_discovery.Keys.{operator_id}
use onym_discovery.Sign.{sign_document, detached_signature}
use onym_discovery.Sign.Signed.{IsSigned}
use onym_discovery.Sign.Verifies.{sign_document-IsSigned}
use onym_discovery.Verify.Detached.{verify_detached_sig}
use onym_discovery.Verify.Detached.Agrees.{verify_detached_sig-signed}
use onym_discovery.Cli.Host.{Host, IsFileSystem, IsName, contents}
use onym_discovery.Cli.Run.{returned, World, write_path}
use onym_discovery.Cli.Run.Returned.{
  >>=-returned, lift-bind, read_path-bind, write_path-returned, print-returned,
}
use onym_discovery.Cli.Names.{sig_path, sig_ending, unwrap_or}
use onym_discovery.Cli.Names.Apart.{append_sig-ne, IsName-append_sig}
use onym_discovery.Cli.Files.Steps.{IsKeyOf, load_key-bind}
use onym_discovery.Cli.Main.{sign_manifest, with_newline, plain, main}
use onym_discovery.Cli.Main.Held.{Keeps-write_other}
use onym_discovery.Cli.Main.Published.{held}

module _ (crates : Crates) (H : Host) where
  -- The two files of a signed manifest.
  pub record IsSignedOnDisk (s t : H.State) (seed input out : Text) : Type 0 where
    pub key : Bytes
    pub key_of : IsKeyOf crates H s seed key
    pub raw : Bytes
    pub raw_read : H.read s input ≡ contents raw
    pub signed : Bytes
    pub signs : sign_document crates raw key ≡ ok signed
    pub document : H.read t out ≡ contents signed
    pub sig : Text
    pub detached : detached_signature crates signed ≡ ok sig
    pub signature : H.read t (sig_path H out) ≡ contents (with_newline sig)

  out-ne_sig :
      IsFileSystem H
      → (out base : Text) → H.file_name out ≡ some base
      → IsName base
      → out ≢ sig_path H out
  unfolding sig_path
  out-ne_sig L out base named name same =
      let e : H.file_name (H.with_file_name out (base ++ sig_ending)) ≡ some (base ++ sig_ending) =
        L.file_name-with_file_name out (base ++ sig_ending) (IsName-append_sig base name) in
      let g : H.file_name (sig_path H out) ≡ some (base ++ sig_ending) =
        ap (λ o. H.file_name (H.with_file_name out (unwrap_or [] o ++ sig_ending))) named ∙ e in
      append_sig-ne base (ground (arith, sym named ∙ ap H.file_name same ∙ g))

  sign_manifest-IsSignedOnDisk :
      IsFileSystem H
      → (w w' : World H) (seed input out : Text) → out ≢ sig_path H out
      → main crates H (sign_manifest seed input out) w ≡ (returned tt, w')
      → IsSignedOnDisk w.disk w'.disk seed input out
  unfolding main
  sign_manifest-IsSignedOnDisk L w w' seed input out apart h =
      let (key, key_of, h0) = load_key-bind crates H seed _ w h in
      let (raw, raw_read, h1) = read_path-bind input _ w h0 in
      let (signed, signs, h2) = lift-bind (sign_document crates raw key) _ w h1 in
      let (_, w1, e1, h3) = >>=-returned (write_path plain out signed) _ w h2 in
      let (sig, detached, h4) = lift-bind (detached_signature crates signed) _ w1 h3 in
      let (_, w2, e2, h5) =
        >>=-returned (write_path plain (sig_path H out) (with_newline sig)) _ w1 h4 in
      let stays = print-returned _ w2 h5 in
      let document =
        L.read-write w.disk w1.disk out signed (write_path-returned plain out signed w e1) in
      let signature =
        L.read-write w1.disk w2.disk (sig_path H out) (with_newline sig)
          (write_path-returned plain (sig_path H out) (with_newline sig) w1 e2) in
      record {
        key = key;
        key_of = key_of;
        raw = raw;
        raw_read = raw_read;
        signed = signed;
        signs = signs;
        document =
            ap (λ s. H.read s out) stays
            ∙ held H out signed
                (Keeps-write_other H L out signed plain (sig_path H out) (with_newline sig) apart)
                e2 document;
        sig = sig;
        detached = detached;
        signature = ap (λ s. H.read s (sig_path H out)) stays ∙ signature;
      }

-- `sign-manifest` on an object without floats and not too deep, where it comes to its end, leaves the
-- document, which the seed file's key has signed, at `out`, and beside it a signature file with which
-- `verify manifest --sig` and `verify snapshot --sig` find that it agrees.
pub sign_manifest-agrees :
    (crates : Crates) (H : Host)
    → IsFileSystem H
    → JsonLaws crates
    → KeyLaws crates
    → TextLaws crates
    → Base64Laws crates
    → (w w' : World H) (seed input out base : Text) (raw : Bytes) (ms : Members) (snapshot : Bool)
    → H.file_name out ≡ some base
    → IsName base
    → H.read w.disk input ≡ contents raw
    → parse_value crates raw ≡ done (object ms)
    → Regular max_depth (object ms)
    → main crates H (sign_manifest seed input out) w ≡ (returned tt, w')
    → (d : IsSignedOnDisk crates H w.disk w'.disk seed input out) × IsSigned crates d.signed
        (operator_id crates (crates.verifying_key d.key))
        (some d.sig)
      × (verify_detached_sig crates d.signed (with_newline d.sig) snapshot ≡ ok tt)
sign_manifest-agrees crates H L json keys texts base64 w w' seed input out base raw ms snapshot
      named name read parsed plain_tree h =
    let d =
      sign_manifest-IsSignedOnDisk crates H L w w' seed input out
        (out-ne_sig crates H L out base named name) h in
    let same : raw ≡ d.raw = ground (arith, read, d.raw_read) in
    let signs = subst (λ x. sign_document crates x d.key ≡ ok d.signed) (sym same) d.signs in
    let (sig, found, signed) =
      sign_document-IsSigned crates json keys raw d.signed d.key ms parsed plain_tree signs in
    let (sig', found', agrees) =
      verify_detached_sig-signed crates json keys texts base64 raw d.signed d.key ms (10 ∷ [])
        snapshot parsed plain_tree signs refl in
    let e : sig ≡ d.sig = ground (arith, found, d.detached) in
    let e' : sig' ≡ d.sig = ground (arith, found', d.detached) in
    (
      d,
      subst
          (λ t. IsSigned crates d.signed (operator_id crates (crates.verifying_key d.key)) (some t))
          e signed,
      subst (λ t. verify_detached_sig crates d.signed (with_newline t) snapshot ≡ ok tt) e' agrees,
    )

-- ===== src/Cli/Main/Verified.antt =====
-- src/main.rs, `verify snapshot`: what its success says of the files that it read.
use onym_discovery.Prelude.{Text, Bytes, ℕ, Option, none, some, Bool, true, ◌≡◌, subst, sym, arith}
use onym_discovery.Result.{ok}
use onym_discovery.Crates.{Crates, done, from_slice, decoded}
use onym_discovery.Types.Document.{snapshot_of}
use onym_discovery.Verify.State.{
  VerifiedManifest, VerifiedSnapshot, RetainedCatalogState, from_snapshot_bytes, sha256_digest,
}
use onym_discovery.Verify.Manifest.{verify_manifest}
use onym_discovery.Verify.Manifest.Trust as ManifestTrust
use onym_discovery.Verify.Snapshot.{verify_snapshot}
use onym_discovery.Verify.Snapshot.Trust as SnapshotTrust
use onym_discovery.Verify.Snapshot.Against.{IsAgainst, verify_snapshot-IsAgainst}
use onym_discovery.Verify.Snapshot.Inversion.{verify_snapshot-IsAccepted}
use onym_discovery.Verify.Detached.{verify_detached_sig}
use onym_discovery.Cli.Host.{Host, contents}
use onym_discovery.Cli.Run.{returned, World, Run, ◌>>=◌}
use onym_discovery.Cli.Run.Returned.{>>=-returned, lift-bind, read_path-bind, lift-returned}
use onym_discovery.Cli.Files.Steps.{IsMoment, moment-bind}
use onym_discovery.Cli.Main.{verify, verify_snapshot_file, check_detached, retained_from, main}

module _ (crates : Crates) (H : Host) where
  -- The state that a previous snapshot's file stands for.
  pub data IsRetained (s : H.State) (policy : Option Text)
      : Option Text → Option RetainedCatalogState → Type 0 where
    first : IsRetained s policy none none
    behind :
        (path : Text) (raw : Bytes) (r : RetainedCatalogState)
        → H.read s path ≡ contents raw
        → from_snapshot_bytes crates raw policy ≡ ok r
        → IsRetained s policy (some path) (some r)

  -- The detached signature, if any, agrees with the document.
  pub data IsAgreed (s : H.State) (raw : Bytes) (snapshot : Bool) : Option Text → Type 0 where
    no_file : IsAgreed s raw snapshot none
    agrees :
        (path : Text) (sig : Bytes)
        → H.read s path ≡ contents sig
        → verify_detached_sig crates raw sig snapshot ≡ ok tt
        → IsAgreed s raw snapshot (some path)

  check_detached-bind :
      {B : Type 0} (raw : Bytes) (sig : Option Text) (snapshot : Bool) (next : Unit {0} → Run H B)
      (w : World H) {b : B} {w' : World H}
      → (check_detached crates H raw sig snapshot >>= next) w ≡ (returned b, w')
      → IsAgreed w.disk raw snapshot sig × (next tt w ≡ (returned b, w'))
  check_detached-bind raw none snapshot next w h = (no_file, h)
  check_detached-bind raw (some path) snapshot next w {b} {w'} h =
      let (_, v, e, k) = >>=-returned (check_detached crates H raw (some path) snapshot) next w h in
      let (sig, found, rest) = read_path-bind path _ w e in
      let (agreed, stay) = lift-returned (verify_detached_sig crates raw sig snapshot) w rest in
      (agrees path sig found agreed, subst (λ u. next tt u ≡ (returned b, w')) stay k)

  retained_from-bind :
      {B : Type 0} (previous policy : Option Text) (next : Option RetainedCatalogState → Run H B)
      (w : World H) {b : B} {w' : World H}
      → (retained_from crates H previous policy >>= next) w ≡ (returned b, w')
      → (r : Option RetainedCatalogState) × IsRetained w.disk policy previous r
        × (next r w ≡ (returned b, w'))
  retained_from-bind none policy next w h = (none, first, h)
  retained_from-bind (some path) policy next w {b} {w'} h =
      let (o, v, e, k) = >>=-returned (retained_from crates H (some path) policy) next w h in
      let (raw, found, rest) = read_path-bind path _ w e in
      let (r, read, rest') = lift-bind (from_snapshot_bytes crates raw policy) _ w rest in
      let same : (some r ≡ o) × (w ≡ v) = ground (arith, rest') in
      (
        some r,
        behind path raw r found read,
        subst (λ u. next (some r) u ≡ (returned b, w')) (sym same.1)
            (subst (λ x. next x v ≡ (returned b, w')) (sym same.0) k),
      )

-- What an accepted snapshot file stands on.
pub record IsAccepted (crates : Crates) (H : Host) (s : H.State) (file manifest : Text)
    (sig previous policy at : Option Text) : Type 0 where
  pub now : ℕ
  pub moment_of : IsMoment crates H at now
  pub manifest_raw : Bytes
  pub raw : Bytes
  pub manifest_read : H.read s manifest ≡ contents manifest_raw
  pub read : H.read s file ≡ contents raw
  pub detached : IsAgreed crates H s raw true sig
  pub m : VerifiedManifest
  pub manifest_verified : verify_manifest crates manifest_raw now ≡ ok m
  pub manifest_trusted : ManifestTrust.IsTrusted crates manifest_raw now m
  pub retained : Option RetainedCatalogState
  pub retained_read : IsRetained crates H s policy previous retained
  pub v : VerifiedSnapshot
  pub snapshot_verified : verify_snapshot crates raw m retained now ≡ ok v
  pub decoded_as : from_slice crates (λ st. decoded (snapshot_of crates st)) raw ≡ done v.snapshot
  pub digest : v.digest ≡ sha256_digest crates raw
  pub trusted : SnapshotTrust.IsTrusted crates raw m retained now v
  pub against : IsAgainst v retained

-- `verify snapshot` comes to its end only if `verify_manifest` accepts the manifest file's bytes and
-- `verify_snapshot` the snapshot file's bytes, under that manifest and against the state that the
-- previous file stands for, both at the moment given, and the detached signature agrees where one
-- is given. The snapshot is then what its bytes decode to, with their digest, and it can be trusted;
-- without a previous file it is a first acceptance, and else it is of the previous file's provider
-- and catalog, and the same publication, the next one or a later one.
pub verify_snapshot_file-IsAccepted :
    (crates : Crates) (H : Host) (w w' : World H) (file manifest : Text)
    (sig previous policy at : Option Text)
    → main crates H (verify (verify_snapshot_file file manifest sig previous policy at)) w
      ≡ (returned tt, w')
    → IsAccepted crates H w.disk file manifest sig previous policy at
unfolding main
verify_snapshot_file-IsAccepted crates H w w' file manifest sig previous policy at h =
    let (raw, read, h0) = read_path-bind file _ w h in
    let (detached, h1) = check_detached-bind crates H raw sig true _ w h0 in
    let (manifest_raw, manifest_read, h2) = read_path-bind manifest _ w h1 in
    let (now, moment_of, h3) = moment-bind crates H at _ w h2 in
    let (m, verified, h4) = lift-bind (verify_manifest crates manifest_raw now) _ w h3 in
    let (retained, retained_read, h5) = retained_from-bind crates H previous policy _ w h4 in
    let (v, accepted, _) = lift-bind (verify_snapshot crates raw m retained now) _ w h5 in
    let checked = verify_snapshot-IsAccepted crates raw m retained now v accepted in
    record {
      now = now;
      moment_of = moment_of;
      manifest_raw = manifest_raw;
      raw = raw;
      manifest_read = manifest_read;
      read = read;
      detached = detached;
      m = m;
      manifest_trusted = ManifestTrust.verify_manifest-IsTrusted crates manifest_raw now m verified;
      manifest_verified = verified;
      retained = retained;
      retained_read = retained_read;
      v = v;
      snapshot_verified = accepted;
      decoded_as = checked.read;
      digest = checked.pinned;
      against = verify_snapshot-IsAgainst crates raw m retained now v accepted;
      trusted = SnapshotTrust.verify_snapshot-IsTrusted crates raw m retained now v accepted;
    }

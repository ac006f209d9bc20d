-- ===== src/Lib.antt =====
-- onym-discovery: a tool that signs provider manifests, builds chain-linked catalog snapshots, and
-- verifies what is published. A client fetches a provider's signed manifest, then the signed
-- snapshot of a catalog that the manifest declares, then the destination manifests that its entries
-- pin by digest; it retains a little state per catalog, against which the next snapshot is judged.
--
-- The parts, and the files that model them:
--   Error                  src/error.rs: the errors and their codes; a diagnostic text is a
--                          constructor of `Message`
--   Result                 Rust's `Result` and panics
--   Json, Crates           serde_json's trees and events, and the foreign functions: see below
--   Types                  src/types.rs: the shapes, their strict decoding by name or position,
--                          the rules for fields, URIs and times; the config of src/build.rs
--   Canonical              src/canonical.rs: the duplicate-key visitor, canonical bytes
--   Keys                   src/keys.rs: seeds, operator ids, fingerprints, signatures; `trim`
--   Sign                   src/sign.rs: `sign_document`, `detached_signature`
--   Verify.State           src/verify.rs: retained state and digests
--   Verify.Manifest        `verify_manifest`, its loop over descriptors included
--   Verify.Chain, .Entry   the chain rules and the lossy entry loop of `verify_snapshot`
--   Verify.Snapshot        `verify_snapshot`: size, schema, header, signature, freshness, descriptor,
--                          retained state, policy, chain, entries, in this order
--   Verify.Detached        `verify_destination`, `verify_detached_sig`
--   Verify.Conflicts       `conflicting_digests`, `source_conflicts`, `cross_catalog_equivocation`
--   Build                  src/build.rs: `build_snapshot`, `resolve_entry`
--   Cli.Host               the operating system, a parameter: see below
--   Cli.Run, .Output       the steps of a command; what is printed, and how a command fails
--   Cli.Names, .Files      src/main.rs: `sig_path`, the retention sibling; `moment`, `load_key`,
--                          `write_immutable`
--   Cli.Main               `main`: one definition for each command
--   Example                a concrete stand-in for the foreign code, documents, and the theorems
--                          at them
-- A large Rust function is one definition that chains smaller ones, each of them a run of its lines.
--
-- Conventions. Texts and byte strings are lists of bytes. An instant is a count of nanoseconds from
-- the first instant that `OffsetDateTime` represents, and a sum beyond the last one panics, as in
-- `time`; the durations of the program are not negative, so a difference is taken only where it is
-- not below 0. A `u64` wraps as in a release build. `now` is an argument.
--
-- The foreign code is the record `Crates`: `url`, `time`, `sha2`, `hex`, `base64`, `ed25519_dalek` and
-- `serde_json`, one field for each function that the sources call. Parsing is split as serde splits
-- it: `read` turns bytes into events, a visitor reads the events, and the text must end. The
-- visitors that `#[derive(Deserialize)]` makes and the duplicate-key visitor are written out. Laws of
-- the foreign code stand in Crates.Laws, and a property names those that it uses.
--
-- The operating system is the record `Cli.Host.Host`, over a state that nothing is known of:
-- `std::fs`, `std::path`, the clock and the random source. A command runs alone on it, from the world
-- of that state and the lines printed to the next one, and panics, fails or returns; printing does
-- not fail. Its laws, in `IsFileSystem`, are those of files that no link joins; a failed write may
-- have changed its file.
--
-- Every loop of the program runs over a list that it is given. Fuel stands in one place: the decimal
-- digits of a sequence in a file's name are at most 20, and a `u64` has no more.
--
-- Not modelled: clap's parsing of the arguments, and the words of the lines that the commands print; the
-- words of serde's own complaints about a schema (a failure of a derived visitor is bare); deploy/,
-- which is shell. The file that a build reads beside its config is a parameter of the library's
-- build, which the command fills with the disk.
mod Prelude
pub mod Error
pub mod Result
pub mod Json
pub mod Crates
pub mod Types
pub mod Keys
pub mod Canonical
pub mod Sign
pub mod Verify
pub mod Build
pub mod Cli
mod Example

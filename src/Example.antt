-- ===== src/Example.antt =====
-- A concrete instance of the foreign code, small documents, and the theorems at them.
mod Codec
mod Crates
mod Program
mod Documents
mod Snapshots
mod Manifests
mod Signing
mod Builds
mod Host
mod Disk
mod Commands
mod Publications
mod Listed
mod SignCommand
mod Verifying

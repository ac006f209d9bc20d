-- ===== src/Verify.antt =====
-- src/verify.rs: manifests, snapshot chains, destinations, detached signatures, conflicts.
pub mod State
pub mod Manifest
pub mod Chain
pub mod Entry
pub mod Snapshot
pub mod Detached
pub mod Conflicts

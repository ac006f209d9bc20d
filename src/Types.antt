-- ===== src/Types.antt =====
-- src/types.rs: the documents, their constants, the rules for their fields.
pub mod Constants
pub mod Records
pub mod Fields
pub mod Uri
pub mod Decode
pub mod Entry
pub mod Document

-- ===== src/Policy.antt =====
-- internal/policy: the remote configuration document, its validation, its evaluation for a host.
pub mod Document
pub mod Json
pub mod Matching
pub mod Validate
pub mod Parse
pub mod Snapshot
pub mod Legacy

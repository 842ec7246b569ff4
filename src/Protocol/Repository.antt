-- ===== src/Protocol/Repository.antt =====
-- src/protocol/repository.ts: the parts of the repository that neither read nor write files.
pub mod Checkpoints
pub mod Allowlist
pub mod Inspections
pub mod Identifiers
pub mod Validation
pub mod Accepted

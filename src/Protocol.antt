-- ===== src/Protocol.antt =====
-- The repository protocol: canonical forms, the event graph and its reconciliation.
pub mod Canonical
pub mod VersionId
pub mod Reconciler
pub mod Repository
pub mod CheckpointMarker
pub mod JsonStructure

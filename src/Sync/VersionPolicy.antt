-- ===== src/Sync/VersionPolicy.antt =====
-- src/sync/versionPolicy.ts: whose version a tip carries, what is published, and in which events.
pub mod Provenance
pub mod Laundering
pub mod Publishing
pub mod Batches
pub mod Splitting
pub mod Filtering

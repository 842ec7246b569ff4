-- ===== src/Resources.antt =====
-- The adapters' merges of a resource that two computers have changed.
pub mod RemoteTargets
pub mod Notepads

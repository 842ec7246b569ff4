-- ===== src/Sync.antt =====
-- The synchronization of one window: what asks for a cycle, and how the requests are scheduled.
pub mod Scopes
pub mod PollPlan
pub mod CycleQueue
pub mod Coordinator
pub mod CoordinatorState
pub mod WarningLog
pub mod VersionPolicy

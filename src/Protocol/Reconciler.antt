-- ===== src/Protocol/Reconciler.antt =====
-- src/protocol/reconciler.ts, `EventReconciler`.
pub mod Graph
pub mod Walk
pub mod Ancestors
pub mod Order
pub mod Election
pub mod Tips
pub mod Streams
pub mod Chains
pub mod Grouping
pub mod Acceptance
pub mod Conflicts
pub mod Bases
pub mod History
pub mod Retention
pub mod Reported
pub mod Reconcile
pub mod Cursors
pub mod Agreement
pub mod Outcomes

-- ===== src/Tests.antt =====
-- The theorems applied at concrete inputs, and the data of these tests.
mod Data
mod Scenario
mod Accepting
mod Cadence
mod Elections
mod Elected
mod Graphs
mod Histories
mod Reconciling
mod Scheduling
mod Merges
mod Notepads
mod Policies
mod Structures
mod Texts

-- ===== src/Lib.antt =====
-- Cursor Setting Sync: the replication core of the extension, as definitions by clauses with theorems
-- about them.
--
-- The program keeps the settings, extensions and chats of several computers in step through a shared
-- folder. Each computer appends immutable, encrypted events to a stream of its own; a cycle reads all
-- streams, decides for each resource which version holds, and applies it. The parts:
--
-- - src/types.ts: the data that all parts share. Types.antt has a record for each interface that the
--   modelled parts use and a data type for each union; Types/Kinds.antt the texts of the resource kinds
--   (`isSupportedResourceKind`).
-- - src/protocol/canonical.ts: the one order of strings in every replicated decision,
--   `compareCodeUnits`, Protocol/Canonical.antt; and the base64 scan, with the pattern that it
--   replaces, in its Base64.
-- - src/protocol/reconciler.ts: from the events to the state of every resource. Protocol/VersionId.antt
--   has a version's identifier; below Protocol/Reconciler, Streams.antt accepts the streams
--   (`acceptContiguousStreams`, `validatePinnedStreamCursor`), Graph.antt builds the version graphs
--   (`buildResourceGraphs`), Walk.antt and Tips.antt find the tips (`markAncestors`, `calculateTips`),
--   Order.antt elects one (`compareTips`, `chooseActiveTip`), Conflicts.antt has the
--   conflicts (`existingOrNewConflict`, `findCommonParent`, `mergeConflictHistory`) and Reconcile.antt
--   composes them as `EventReconciler.reconcile` does, with `parentsForLocalChange`. The other files
--   there hold proofs: Chains, Grouping and Acceptance on the streams, Ancestors on the walk, Election on
--   the elected tip, Bases on the merge base, History, Retention and Reported on the
--   kept conflicts, Cursors, Agreement and Outcomes on the whole.
-- - src/sync/cycleQueue.ts: the scheduler in front of the cycle. Sync/Scopes.antt has the scopes,
--   Sync/CycleQueue.antt the class `SyncCycleQueue`; below it Steps has the equations of the steps and
--   Promises, Orderly, Progress and Coverage the proofs.
-- - src/sync/pollPlan.ts: the periodic loops, Sync/PollPlan.antt.
-- - src/protocol/checkpointMarker.ts: the old markers, Protocol/CheckpointMarker.antt.
-- - src/sync/versionPolicy.ts: below Sync/VersionPolicy, Provenance.antt has the recipe and the producer
--   that a synthetic version stands for, Publishing.antt what is published and with which parents
--   (`shouldPublishSnapshot`, `filterPublishableChanges`, `parentsForLocalDeletion`) and Batches.antt
--   `publishInBatches`; Laundering, Filtering and Splitting hold the proofs on them.
-- - src/sync/warningLog.ts: the registry of standing warnings, Sync/WarningLog.antt, with the proofs in
--   its Standing.
-- - src/resources/remoteTargets.ts: the merge of the folders opened on remote hosts,
--   Resources/RemoteTargets.antt, with the proofs in its Folders and Union. `JSON.parse` has
--   happened: the merge takes its results, and a text that it refuses is `none`.
-- - src/helper/processListingCadence.ts: when the helper lists the processes,
--   Helper/ProcessListing.antt, with the proofs in its Cadence.
-- - src/sync/backgroundCoordinator.ts: the election of the host that owns the background work, with
--   its state in Sync/CoordinatorState.antt and its methods in Sync/Coordinator.antt, again with one step
--   for what happens between two awaits; below it Pipeline has the operations in line, Invariant what
--   holds between steps, HandOver, Preserved and Attempt that each step keeps it, Elections,
--   Invalidation, Alive, Lease and Recovery what follows.
-- - src/resources/notepadMerge.ts: the three-way merge and the union of notepads,
--   Resources/Notepads.antt; Lookup has the loop of the merges, Resolution one notepad, Merged and
--   Agreed the whole lists. `JSON.parse` and the printing of the result are outside, as are buffers;
--   Types/Printed.antt says when `JSON.stringify` prints two values alike.
-- - src/protocol/jsonStructure.ts: the scan before `JSON.parse`, Protocol/JsonStructure.antt, with a
--   grammar of strings, comments and structural tokens in Lexing and one of nested containers in
--   Nesting; Rounds, Making and Spending compare the loop with them, Fitting the
--   whole.
-- - src/protocol/repository.ts, below Protocol/Repository: Checkpoints has the orders and the tip that a
--   checkpoint folds, Allowlist `historyEventHashAllowlist` with the proof in its Chains, Inspections
--   `rotateCheckpointInspections`, Identifiers the texts that name things, with `assertSafeIdentifier`
--   of src/platform/files.ts, Validation the validation of event headers and of the manifests of events
--   and checkpoints on values of their types, and Accepted what follows from it. `Date.parse` is a
--   parameter. The loop of the allowlist is recursion on the expected sequence, which falls by one in
--   each round.
--
-- How the code is read. A string is the list of its UTF-16 code units. A `Map`, and an object used as a
-- dictionary, is a list of entries in the order of their first writes, with the write in place that
-- JavaScript has; a `Set` is a list without repetition. A comparator is read by the sign of its number,
-- and `sort` is a stable insertion sort, which any stable sort equals on a comparator that is a total
-- preorder. A thrown error is a value of `Result`; errors and warnings are kept by the parts that their
-- texts show. `reconcile` changes `state` in place: here it returns the new state. The conflicts are
-- objects that the state and the result share, and the one write through such an alias,
-- `match.baseVersionId = null`, is made in both places. What the host provides (random UUIDs, the clock,
-- `Date.parse`, `localeCompare`) is the record `Host`, about which nothing is assumed.
--
-- The queue is a machine whose steps are what happens between two awaits: the calls of its methods, the
-- return of `runCycle` and of `runMaintenance`, and the `finally` that clears `drain`. A promise is a
-- number, and what became of it an entry of `settled`. The returns may come in any order that the
-- phase allows, with success or with an error; a return that is not awaited changes nothing.
--
-- Bounds. The walk over a version graph takes as fuel one more than the number of parent links of the
-- versions not yet marked: each round takes one entry off the stack, and a version puts its parents on
-- it once. Printing a number takes one round more than the number: each round drops a digit. Numbers
-- are natural numbers; a stream cursor is compared with the bound of safe integers as the code does.
--
-- What is not modelled. The encryption and the files (src/protocol/crypto.ts, and what
-- src/protocol/repository.ts reads, writes, checkpoints and prunes) stand before `reconcile`, which takes
-- decrypted events; of the decoding the validation of an event is modelled. The appliers, the
-- databases, the chats' formats and the views come after it. The editor's callbacks are the actions of
-- the queue. Two keys that JavaScript treats apart, integer-like names and `__proto__`, are read as
-- other names: the keys here are identifiers of devices and resources, and names of hosts. Only the
-- merge of the hosts, whose object takes any name, has `__proto__` as the code does. Of
-- `publishInBatches` the calls of `publish` are modelled, with the length of a printed JSON value as a
-- parameter; the acknowledgement of local chats after them is not. `-0` and numbers with a fraction are
-- told apart only where a check of the code does.
pub mod Base
pub mod Types
pub mod Protocol
pub mod Sync
pub mod Resources
pub mod Helper
pub mod Tests

-- ===== src/Protocol/Reconciler/Reconcile.antt =====
-- src/protocol/reconciler.ts: `EventReconciler.reconcile` and `parentsForLocalChange`.
use cursor_setting_sync.Base.{
  ℕ, Bool, true, ◌&&◌, ◌||◌, not, Option, none, some, List, [], ◌∷◌, ◌++◌, map, ltb, length, every,
  if◌then◌else◌, ◌==◌, ◌!=◌, option_eq,
}
use cursor_setting_sync.Base.Texts.{Text, text_eq}
use cursor_setting_sync.Base.Maps.{Map, get, set}
use cursor_setting_sync.Base.Sort.{sort}
use cursor_setting_sync.Types.{
  ResourceTip, SyncConflict, LocalProjection, LocalSyncState, CheckpointManifest, DecryptedEvent,
  StreamCursor, operation_eq,
}
use cursor_setting_sync.Protocol.Canonical.{compare_code_units}
use cursor_setting_sync.Protocol.Reconciler.Graph.{Graph, Graphs, build_resource_graphs}
use cursor_setting_sync.Protocol.Reconciler.Tips.{calculate_tips}
use cursor_setting_sync.Protocol.Reconciler.Order.{choose_active_tip}
use cursor_setting_sync.Protocol.Reconciler.Conflicts.{
  Host, existing_or_new_conflict, merge_conflict_history,
}
use cursor_setting_sync.Protocol.Reconciler.Streams.{
  Result, ok, ◌>>=◌, StreamWarning, Accepted, accept_contiguous_streams, device_of, sequence_of,
}

-- `parentsForLocalChange`.
unfoldable pub parents_for_local_change : Option LocalProjection → List ResourceTip → List Text
parents_for_local_change none tips = []
parents_for_local_change (some projection) [] = elim projection.version_id [
  | none ↦ []
  | some version ↦ version ∷ []
]
parents_for_local_change (some projection) (first ∷ rest) =
    if ltb 1 (length (first ∷ rest))
      && every
          (λ tip. tip.semantic_hash == projection.semantic_hash && tip.operation == first.operation)
          (first ∷ rest)
    then sort compare_code_units (map (λ tip. tip.version_id) (first ∷ rest))
    else elim projection.version_id [ none ↦ [] | some version ↦ version ∷ [] ]

pub record ResourceProjection : Type 0 where
  pub resource_id : Text
  pub tip : ResourceTip
  pub changed : Bool

-- `tips.every((tip) => …)` against the first.
unfoldable pub are_equivalent : List ResourceTip → Bool
are_equivalent [] = true
are_equivalent (first ∷ rest) =
    every (λ tip. tip.operation == first.operation && tip.semantic_hash == first.semantic_hash)
      (first ∷ rest)

unfoldable pub is_changed : Option LocalProjection → ResourceTip → Bool
is_changed none active = true
is_changed (some current) active =
    current.version_id != some active.version_id || current.semantic_hash != active.semantic_hash

-- What the loop over the resources has gathered. `existing` is the list in `state.conflicts`.
pub record Round : Type 0 where
  pub projections : List ResourceProjection
  pub conflicts : List SyncConflict
  pub next_tips : Map Text (List ResourceTip)
  pub existing : List SyncConflict
  pub calls : ℕ

-- One round: a conflict where more than one tip remains and they differ, else the active tip.
unfoldable pub reconcile_resource : Host → Map Text LocalProjection → Round → Text → Graph → Round
reconcile_resource host projections round resource_id graph =
    let tips = calculate_tips graph in
    let with_tips : Round = record round { next_tips = set round.next_tips resource_id tips } in
    if ltb 1 (length tips) && not (are_equivalent tips)
    then (let (conflict, existing, calls) =
          existing_or_new_conflict host round.calls round.existing resource_id tips graph in
        record with_tips {
          conflicts = round.conflicts ++ conflict ∷ [];
          existing = existing;
          calls = calls;
        })
    else elim (choose_active_tip tips) [
      | none ↦ with_tips
      | some active ↦ record with_tips {
        projections =
            round.projections
            ++ record {
              resource_id = resource_id;
              tip = active;
              changed = is_changed (get projections resource_id) active;
            }
              ∷ [];
      }
    ]

unfoldable pub reconcile_resources : Host → Map Text LocalProjection → Round → Graphs → Round
reconcile_resources host projections round [] = round
reconcile_resources host projections round ((resource_id, graph) ∷ resources) =
    reconcile_resources host projections
      (reconcile_resource host projections round resource_id graph) resources

-- The loop that raises `state.lamport`.
unfoldable pub raise_lamport : ℕ → List DecryptedEvent → ℕ
raise_lamport lamport [] = lamport
raise_lamport lamport (event ∷ events) =
    raise_lamport (if ltb lamport event.manifest.lamport then event.manifest.lamport else lamport)
      events

-- The loop that moves the cursors.
unfoldable pub advance_streams : Map Text StreamCursor → List DecryptedEvent → Map Text StreamCursor
advance_streams streams [] = streams
advance_streams streams (event ∷ events) =
    advance_streams
      (set streams (device_of event)
        (record { last_sequence = sequence_of event; last_event_hash = some event.event_hash }))
      events

pub record ReconcileResult : Type 0 where
  pub projections : List ResourceProjection
  pub conflicts : List SyncConflict
  pub warnings : List StreamWarning
  pub accepted_event_hashes : List Text

abbrev pub first_round : LocalSyncState → Round
first_round state = record {
  projections = [];
  conflicts = [];
  next_tips = [];
  existing = state.conflicts;
  calls = 0;
}

-- The part after `acceptContiguousStreams`, which cannot fail.
unfoldable pub apply_accepted :
    Host → LocalSyncState → Option CheckpointManifest → Accepted → ReconcileResult × LocalSyncState
apply_accepted host state checkpoint accepted =
    let round =
      reconcile_resources host state.projections (first_round state)
        (build_resource_graphs accepted.accepted checkpoint) in
    (
      record {
        projections = round.projections;
        conflicts = round.conflicts;
        warnings = accepted.warnings;
        accepted_event_hashes = map (λ event. event.event_hash) accepted.accepted;
      },
      record state {
        tips = round.next_tips;
        conflicts = merge_conflict_history host round.existing round.conflicts;
        lamport = raise_lamport state.lamport accepted.accepted;
        streams = advance_streams state.streams accepted.accepted;
      },
    )

-- `reconcile`, with the state that it leaves. An error is thrown before anything is written.
unfoldable pub reconcile :
    Host
    → List DecryptedEvent
    → LocalSyncState
    → Option CheckpointManifest
    → Result (ReconcileResult × LocalSyncState)
reconcile host events state checkpoint =
    accept_contiguous_streams events state checkpoint >>= λ accepted.
    ok (apply_accepted host state checkpoint accepted)

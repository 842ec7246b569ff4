-- ===== src/Tests/Scenario.antt =====
-- Two computers: A has written two versions of `r` and one of `s`, B one of `s`. B had read A's first
-- event before, and its Lamport clock stands at 1.
use cursor_setting_sync.Base.{none, some, List, [], ◌∷◌}
use cursor_setting_sync.Base.Texts.{units}
use cursor_setting_sync.Types.{DecryptedEvent, LocalSyncState, StreamCursor}
use cursor_setting_sync.Protocol.VersionId.{version_id}
use cursor_setting_sync.Protocol.Reconciler.Streams.{
  Result, ok, err, Accepted, accept_contiguous_streams,
}
use cursor_setting_sync.Protocol.Reconciler.Reconcile.{reconcile, ReconcileResult}
use cursor_setting_sync.Tests.Data.{hash, event_of, change_of, state_of, host}

abbrev pub first_of_a : DecryptedEvent
first_of_a =
    event_of (hash (units "a1")) (units "A") 1 none 1
      (change_of (units "r") (units "one") [] ∷ change_of (units "s") (units "x") [] ∷ [])

abbrev pub second_of_a : DecryptedEvent
second_of_a =
    event_of (hash (units "a2")) (units "A") 2 (some (hash (units "a1"))) 3
      (change_of (units "r") (units "two") (version_id (hash (units "a1")) 0 ∷ []) ∷ [])

abbrev pub first_of_b : DecryptedEvent
first_of_b =
    event_of (hash (units "b1")) (units "B") 1 none 2 (change_of (units "s") (units "y") [] ∷ [])

-- In the order in which the folder happens to list them.
abbrev pub events : List DecryptedEvent
events = second_of_a ∷ first_of_b ∷ first_of_a ∷ []

abbrev pub pinned : StreamCursor
pinned = record { last_sequence = 1; last_event_hash = some (hash (units "a1")) }

abbrev pub state : LocalSyncState
state = state_of ((units "A", pinned) ∷ []) 1 []

abbrev accepted_or_none : Result Accepted → Accepted
accepted_or_none (ok accepted) = accepted
accepted_or_none (err e) = record { accepted = []; warnings = [] }

abbrev pub accepted : Accepted
accepted = accepted_or_none (accept_contiguous_streams events state none)

abbrev outcome_or_none :
    Result (ReconcileResult × LocalSyncState) → ReconcileResult × LocalSyncState
outcome_or_none (ok outcome) = outcome
outcome_or_none (err e) =
    (record { projections = []; conflicts = []; warnings = []; accepted_event_hashes = [] }, state)

abbrev pub outcome : ReconcileResult × LocalSyncState
outcome = outcome_or_none (reconcile host events state none)

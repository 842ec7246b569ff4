-- ===== src/Tests/Scheduling.antt =====
-- src/sync/cycleQueue.ts and src/sync/pollPlan.ts: the theorems at the actions of one window.
use cursor_setting_sync.Base.{
  ℕ, ◌<◌, ◌≤◌, ◌≡◌, refl, inl, true, false, Option, some, List, [], ◌∷◌, In, arith, ltb,
  if◌then◌else◌,
}
use cursor_setting_sync.Base.Sets.{has, add}
use cursor_setting_sync.Sync.Scopes.{
  SyncScope, all, files, chat, remote, scope_eq, sync_scope_covers,
}
use cursor_setting_sync.Sync.CycleQueue.{
  Queue, ending, empty, Action, requests, automatic, cycle_is_over, maintenance_is_over,
  drain_is_over, run, step, request, start_drain, claim, push_waiter, request_automatic, exit_floor,
}
use cursor_setting_sync.Sync.CycleQueue.Promises.{places, run-places}
use cursor_setting_sync.Sync.CycleQueue.Progress.{rank, Awaits, run-progress}
use cursor_setting_sync.Sync.CycleQueue.Coverage.{SeenTo, exit_floor-SeenTo, late_request_lies}

-- A cycle over the files runs; a request and two notices of the watcher come in behind it.
abbrev busy : List Action
busy = requests false files ∷ requests true all ∷ automatic remote ∷ automatic chat ∷ []

run-places_example :
    places 1 (run empty busy) ≡ (if ltb 1 (run empty busy).next_waiter then 1 else 0)
run-places_example = run-places busy 1

handed_out : 1 < (run empty busy).next_waiter
unfolding run step request request_automatic start_drain claim push_waiter add has
handed_out = omega arith

run-progress_example :
    ((a : Action) → rank 1 (step (run empty busy) a) ≤ rank 1 (run empty busy))
    × ((a : Action)
        → Awaits (run empty busy) a
        → 0 < rank 1 (run empty busy)
        → rank 1 (step (run empty busy) a) < rank 1 (run empty busy))
run-progress_example = run-progress busy 1 handed_out

-- A command holds the floor, and the watcher has reported the repository and the chats.
abbrev held : Queue
held = record empty { floor = 1; deferred_scopes = remote ∷ chat ∷ [] }

held_is_idle : ¬ (held.phase ≡ ending)
held_is_idle e = absurd (cc)

exit_floor-SeenTo_example :
    (merged : SyncScope) × (sync_scope_covers merged remote ≡ true)
    × SeenTo merged (exit_floor held)
exit_floor-SeenTo_example = exit_floor-SeenTo held remote refl refl held_is_idle (inl refl)

-- A cycle has failed: its caller hears of it and asks again at once.
abbrev failing : Queue
failing = record empty { phase = ending; next_waiter = 1 }

late_request_lies_example :
    (left : Queue) × (run failing (requests true all ∷ drain_is_over ∷ []) ≡ left)
    × ((request failing true all).1 ≡ some 1)
    × (left.waiters ≡ 1 ∷ [])
    × In all left.pending_scopes
    × ((error : Option ℕ) → step left (cycle_is_over error) ≡ left)
    × ((error : Option ℕ) → step left (maintenance_is_over error) ≡ left)
    × (step left drain_is_over ≡ left)
late_request_lies_example = late_request_lies failing true all refl refl

by_chat : (s : SyncScope) → In s (remote ∷ chat ∷ []) → sync_scope_covers chat s ≡ true
unfolding sync_scope_covers
by_chat s i = ground arith

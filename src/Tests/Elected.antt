-- ===== src/Tests/Elected.antt =====
-- src/sync/backgroundCoordinator.ts: the theorems at the actions of one host.
use cursor_setting_sync.Base.{suc, ◌≡◌, refl, true, false, some, List, [], ◌∷◌, ◌++◌, every, filter}
use cursor_setting_sync.Base.Sets.{has}
use cursor_setting_sync.Sync.Coordinator.{
  schedule_probe, hand_over, start, stand_down, validate_ownership, begin, continue, resume,
  granted, no_lock, activates, acquisition_ends, activation_ends, probe_fires, release_settles,
  Action, starts, resumes, stops, disposes, begins, acquires, activation, fires, releases, step,
  run,
}
use cursor_setting_sync.Sync.CoordinatorState.{Coordinator, created, active, idle, runs}
use cursor_setting_sync.Sync.Coordinator.Invariant.{Inv, created-Inv, stakes}
use cursor_setting_sync.Sync.Coordinator.Elections.{run-Inv, OneLock, run-OneLock}
use cursor_setting_sync.Sync.Coordinator.Invalidation.{IsInvalidated, step-IsInvalidated}
use cursor_setting_sync.Sync.Coordinator.Alive.{schedules, run-stakes}
use cursor_setting_sync.Sync.Coordinator.Lease.{Reaches, lease, run-Reaches}
use cursor_setting_sync.Sync.Coordinator.Recovery.{proceeds, validate_ownership-throws}

-- The host follows at first, finds no lock, and its probe wins the lock later.
abbrev elected : List Action
elected =
    starts true
    ∷ begins
    ∷ resumes true
    ∷ acquires (no_lock true)
    ∷ fires 0
    ∷ begins
    ∷ resumes true
    ∷ acquires (granted true)
    ∷ activation (activates true)
    ∷ []

-- A new configuration comes while the owner works, and again while the next attempt is under way.
abbrev restarted : List Action
restarted =
    elected
    ++ starts false
      ∷ begins
      ∷ releases 0
      ∷ resumes true
      ∷ starts false
      ∷ acquires (granted true)
      ∷ []

abbrev owner : Coordinator
owner = run created elected

owner-Inv : Inv owner
owner-Inv = run-Inv created elected created-Inv

owner_lock : owner.owned ≡ some (record { generation = 1; lock = 0 })
unfolding run step start hand_over begin continue resume schedule_probe acquisition_ends
    activation_ends probe_fires has
owner_lock = refl

owner-active : active owner ≡ true
unfolding run step start hand_over begin continue resume schedule_probe acquisition_ends
    activation_ends probe_fires has
owner-active = refl

-- The lock that came too late is handed back.
restarted_releases : (run created restarted).releasing ≡ 1 ∷ []
unfolding run step start hand_over begin continue resume schedule_probe acquisition_ends
    activation_ends probe_fires release_settles has filter
restarted_releases = refl

run-OneLock_example : OneLock (run created restarted)
run-OneLock_example = run-OneLock restarted

run-Reaches_example : Reaches (lease created) (lease (run created restarted))
run-Reaches_example = run-Reaches created restarted created-Inv

restarted-runs : runs (run created restarted) ≡ true
unfolding run step start hand_over begin continue resume schedule_probe acquisition_ends
    activation_ends probe_fires release_settles has filter
restarted-runs = refl

restarted-schedules : every schedules restarted ≡ true
unfolding every
restarted-schedules = refl

run-stakes_example : stakes (run created restarted) ≡ 1
run-stakes_example = run-stakes restarted restarted-schedules restarted-runs

step-IsInvalidated_example : IsInvalidated owner (step owner stops)
step-IsInvalidated_example = step-IsInvalidated owner stops refl

validate_ownership-throws_example :
    ((validate_ownership owner false).1 ≡ false)
    × ((validate_ownership owner false).0.releasing ≡ 0 ∷ [])
    × (let d = run (validate_ownership owner false).0 (proceeds 0 true) in
        (d.releasing ≡ [])
        × (d.phase ≡ idle)
        × (d.probe ≡ some (record { id = owner.next_probe; generation = suc owner.generation })))
validate_ownership-throws_example =
    validate_ownership-throws owner owner-Inv (record { generation = 1; lock = 0 }) owner_lock
      owner-active

disposed_owner : (run owner (disposes ∷ [])).disposed ≡ true
unfolding run step start stand_down hand_over begin continue resume schedule_probe acquisition_ends
    activation_ends probe_fires has
disposed_owner = refl

owner_runtime : (run created elected).runtime ≡ true
unfolding run step start hand_over begin continue resume schedule_probe acquisition_ends
    activation_ends probe_fires has
owner_runtime = refl

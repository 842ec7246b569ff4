-- ===== src/Sync/Coordinator.antt =====
-- src/sync/backgroundCoordinator.ts, `BackgroundCoordinator`, as a machine whose steps are what
-- happens between two awaits. A `FileLock`, with the `OwnedLock` around it, is the number of its
-- acquisition, and a pending probe is its number too. `runtime` is what `activate` has opened and
-- `deactivate` has not closed, and `releasing` and `released` are the locks whose `release` has been
-- called and has settled: all three belong to the callbacks. What a callback does is an argument of
-- the step that calls it.
pub mod Pipeline
pub mod Invariant
pub mod HandOver
pub mod Preserved
pub mod Attempt
pub mod Elections
pub mod Invalidation
pub mod Alive
pub mod Lease
pub mod Recovery
use cursor_setting_sync.Base.{
  ℕ, suc, ◌≡◌, Bool, true, false, ◌&&◌, ◌||◌, not, Option, none, some, List, [], ◌∷◌, ◌++◌, nat_beq,
  if◌then◌else◌, ◌!=◌, nat_eq, filter,
}
use cursor_setting_sync.Base.Sets.{has}
use cursor_setting_sync.Sync.CoordinatorState.{
  OwnedLock, PendingProbe, Continuation, Operation, Phase, Coordinator, created, runs,
  is_requested_generation, owns, is_current, active, attempts, probes, releases_again, ends, idle,
  waiting, acquiring, activating,
}

-- `releaseLock` up to its await.
abbrev pub release_lock : Coordinator → ℕ → Coordinator
release_lock c lock = record c { releasing = lock ∷ c.releasing }

-- `releaseSpecific` up to its await; the promise is the lock that it waits for.
abbrev pub release_specific : Coordinator → ℕ → Coordinator × Option ℕ
release_specific c lock =
    if owns c lock
    then (release_lock (record c { owned = none; activated = false }) lock, some lock)
    else (c, none)

abbrev pub release_owned : Coordinator → Coordinator × Option ℕ
release_owned c = elim c.owned [ none ↦ (c, none) | some owned ↦ release_specific c owned.lock ]

abbrev pub cancel_probe : Coordinator → Coordinator
cancel_probe c = record c { probe = none }

abbrev pub deactivate_now : Coordinator → Coordinator
deactivate_now c = record c { runtime = false }

abbrev pub enqueue : Coordinator → Operation → Coordinator
enqueue c operation = record c { queue = c.queue ++ operation ∷ [] }

-- `scheduleProbe`; the flag says that the scheduler returns rather than throws.
unfoldable pub schedule_probe : Coordinator → ℕ → Bool → Coordinator
schedule_probe c generation scheduled = elim c.probe [
  | some pending ↦ c
  | none ↦
      if is_requested_generation c generation && scheduled
      then record c {
        probe = some (record { id = c.next_probe; generation = generation });
        next_probe = suc c.next_probe;
      }
      else c
]

-- What `start`, `standDown` and a failed `validateOwnership` have in common once the generation
-- is the new one.
unfoldable pub hand_over : Coordinator → Continuation → Coordinator
hand_over c after =
    let (left, release) =
      release_owned (deactivate_now (record (cancel_probe c) { activated = false })) in
    enqueue left (record { release = release; after = after })

unfoldable pub start : Coordinator → Bool → Coordinator
start c run_initial_sync =
    if c.disposed
    then c
    else hand_over (record c { should_run = true; generation = suc c.generation })
        (attempts (suc c.generation) run_initial_sync)

unfoldable pub stand_down : Coordinator → Bool → Coordinator
stand_down c permanently =
    hand_over
      (record c {
        disposed = c.disposed || permanently;
        should_run = false;
        generation = suc c.generation;
      })
      releases_again

-- The flag says that `refresh` returns rather than throws.
unfoldable pub validate_ownership : Coordinator → Bool → Coordinator × Bool
validate_ownership c refreshed =
    if active c
    then (if refreshed then (c, active c) else (
      hand_over (record c { generation = suc c.generation }) (probes (suc c.generation)),
      false,
    ))
    else (c, false)

-- The next operation of the queue begins.
unfoldable pub begin : Coordinator → Coordinator
begin c = elim c.phase [
  | idle ↦ elim c.queue [
    | [] ↦ c
    | operation ∷ later ↦ record c { phase = waiting operation; queue = later }
  ]
  | waiting operation ↦ c
  | acquiring generation run_initial_sync ↦ c
  | activating owned ↦ c
]

-- An awaited promise has settled: that of no release, or of one that is over.
abbrev pub settled : Coordinator → Option ℕ → Bool
settled c none = true
settled c (some lock) = not (has lock c.releasing)

-- The running operation awaits `release` and goes on with `after`.
abbrev pub await_release : Coordinator × Option ℕ → Continuation → Coordinator
await_release (c, release) after = record c {
  phase = waiting (record { release = release; after = after });
}

-- What comes after an awaited release.
unfoldable pub continue : Coordinator → Continuation → Bool → Coordinator
continue c (attempts generation run_initial_sync) scheduled =
    if is_requested_generation c generation
    then record c { phase = acquiring generation run_initial_sync }
    else record c { phase = idle }
continue c (probes generation) scheduled =
    schedule_probe (record c { phase = idle }) generation scheduled
continue c releases_again scheduled = await_release (release_owned c) ends
continue c ends scheduled = record c { phase = idle }

unfoldable pub resume : Coordinator → Bool → Coordinator
resume c scheduled = elim c.phase [
  | waiting operation ↦
      if settled c operation.release then continue c operation.after scheduled else c
  | idle ↦ c
  | acquiring generation run_initial_sync ↦ c
  | activating owned ↦ c
]

-- How `acquire` settles. With a lock goes whether the first `refresh` returns, and with a failure
-- or no lock whether the scheduler does.
pub data Acquisition : Type 0 where
  no_lock throws : Bool → Acquisition
  granted : Bool → Acquisition

-- The `catch` of `attempt` up to its await.
unfoldable pub give_up : Coordinator → OwnedLock → Coordinator
give_up c owned =
    await_release (release_specific (deactivate_now (record c { activated = false })) owned.lock)
      (probes owned.generation)

-- `attempt` after `await acquire()`, up to its next await.
unfoldable pub acquisition_ends : Coordinator → Acquisition → Coordinator
acquisition_ends c outcome = elim c.phase [
  | acquiring generation run_initial_sync ↦ elim outcome [
    | no_lock scheduled ↦ schedule_probe (record c { phase = idle }) generation scheduled
    | throws scheduled ↦ schedule_probe (record c { phase = idle }) generation scheduled
    | granted refreshed ↦
        let taken : Coordinator = record c { next_lock = suc c.next_lock } in
        let owned : OwnedLock = record { generation = generation; lock = c.next_lock } in
        if is_requested_generation c generation
        then (if refreshed
            then record taken { owned = some owned; phase = activating owned; runtime = true }
            else give_up (record taken { owned = some owned }) owned)
        else await_release (release_lock taken c.next_lock, some c.next_lock) ends
  ]
  | idle ↦ c
  | waiting operation ↦ c
  | activating owned ↦ c
]

-- How `activate` settles; with its success goes whether the second `refresh` returns.
pub data Activation : Type 0 where
  activates : Bool → Activation
  fails : Activation

-- `attempt` after `await activate(...)`. An activation that goes on after a cancellation may open
-- what `deactivate` has closed, until it ends.
unfoldable pub activation_ends : Coordinator → Activation → Coordinator
activation_ends c outcome = elim c.phase [
  | activating owned ↦
      let open' : Coordinator = record c { runtime = true } in
      elim outcome [
        | fails ↦ give_up open' owned
        | activates refreshed ↦
            if is_current c owned.generation owned.lock
            then (if refreshed
                then record open' { activated = true; phase = idle }
                else give_up open' owned)
            else await_release (release_specific (deactivate_now open') owned.lock) ends
      ]
  | idle ↦ c
  | waiting operation ↦ c
  | acquiring generation run_initial_sync ↦ c
]

-- The callback of a probe.
unfoldable pub probe_fires : Coordinator → ℕ → Coordinator
probe_fires c id = elim c.probe [
  | none ↦ c
  | some pending ↦
      if nat_beq pending.id id
      then (if is_requested_generation c pending.generation
          then enqueue (cancel_probe c)
              (record { release = none; after = attempts pending.generation true })
          else cancel_probe c)
      else c
]

-- `await lock.release()` comes back, or throws, which is reported.
unfoldable pub release_settles : Coordinator → ℕ → Coordinator
release_settles c lock =
    if has lock c.releasing
    then record c {
      releasing = filter (λ other. other != lock) c.releasing;
      released = lock ∷ c.released;
    }
    else c

-- What can happen to the coordinator; a step that its phase does not await changes nothing.
pub data Action : Type 0 where
  starts validates resumes : Bool → Action
  stops disposes begins : Action
  acquires : Acquisition → Action
  activation : Activation → Action
  fires releases : ℕ → Action

unfoldable pub step : Coordinator → Action → Coordinator
step c (starts run_initial_sync) = start c run_initial_sync
step c stops = stand_down c false
step c disposes = stand_down c true
step c (validates refreshed) = (validate_ownership c refreshed).0
step c begins = begin c
step c (resumes scheduled) = resume c scheduled
step c (acquires outcome) = acquisition_ends c outcome
step c (activation outcome) = activation_ends c outcome
step c (fires id) = probe_fires c id
step c (releases lock) = release_settles c lock

unfoldable pub run : Coordinator → List Action → Coordinator
run c [] = c
run c (action ∷ actions) = run (step c action) actions

-- ===== src/Sync/Coordinator/Recovery.antt =====
-- src/sync/backgroundCoordinator.ts: how an election goes on after a loss and after a start.
use cursor_setting_sync.Base.{
  ℕ, suc, ◌≡◌, refl, Bool, true, false, some, List, [], ◌∷◌, arith, if_keeps, filter, nat_eq,
}
use cursor_setting_sync.Base.Sets.{has}
use cursor_setting_sync.Sync.Coordinator.{
  start, validate_ownership, begin, resume, continue, schedule_probe, acquisition_ends,
  activation_ends, release_settles, granted, activates, Action, begins, resumes, acquires,
  activation, releases, step, run,
}
use cursor_setting_sync.Sync.CoordinatorState.{
  OwnedLock, Continuation, Operation, probes, attempts, idle, acquiring, waiting, Coordinator,
  is_requested_generation, active,
}
use cursor_setting_sync.Sync.Coordinator.Invariant.{Inv}
use cursor_setting_sync.Sync.Coordinator.HandOver.{handed, hand_over-some}
use cursor_setting_sync.Sync.Coordinator.Invalidation.{validate_ownership_lost}

-- An active coordinator's operations are over.
active_rests :
    (c : Coordinator)
    → Inv c
    → active c ≡ true
    → (c.phase ≡ idle) × (c.queue ≡ []) × (c.releasing ≡ [])
active_rests c h t = (
  ground (arith, h.fits, h.owned_last, h.activated_owned, h.single),
  ground (arith, h.owned_last, h.activated_owned),
  ground (arith, h.alone),
)

begin_next :
    (d : Coordinator) (x : Operation) (xs : List Operation)
    → d.phase ≡ idle
    → d.queue ≡ x ∷ xs
    → begin d ≡ record d { phase = waiting x; queue = xs }
unfolding begin
begin_next d x xs p q = ground arith

release_settles_last :
    (d : Coordinator) (l : ℕ)
    → d.releasing ≡ l ∷ []
    → release_settles d l ≡ record d { releasing = []; released = l ∷ d.released }
unfolding release_settles has filter
release_settles_last d l e = ground arith

resume_settled :
    (d : Coordinator) (x : Operation) (b : Bool)
    → d.phase ≡ waiting x
    → d.releasing ≡ []
    → resume d b ≡ continue d x.after b
unfolding resume has
resume_settled d x b p e = ground arith

-- The steps with which an operation that awaits the last release begins and goes on.
abbrev pub proceeds : ℕ → Bool → List Action
proceeds lock scheduled = begins ∷ releases lock ∷ resumes scheduled ∷ []

-- The coordinator once its last lock has been released for the sake of an operation.
abbrev freed : Coordinator → ℕ → Continuation → Coordinator
freed d l k = record d {
  phase = waiting (record { release = some l; after = k });
  queue = [];
  releasing = [];
  released = l ∷ d.released;
}

run-proceeds :
    (d : Coordinator) (l : ℕ) (b : Bool) (k : Continuation)
    → d.phase ≡ idle
    → d.queue ≡ record { release = some l; after = k } ∷ []
    → d.releasing ≡ l ∷ []
    → run d (proceeds l b) ≡ continue (freed d l k) k b
unfolding run step
run-proceeds d l b k p q r =
    rw
      (
        begin_next d (record { release = some l; after = k }) [] p q,
        release_settles_last
            (record d { phase = waiting (record { release = some l; after = k }); queue = [] }) l r,
        resume_settled
            (record d {
              phase = waiting (record { release = some l; after = k });
              queue = [];
              releasing = [];
              released = l ∷ d.released;
            })
            (record { release = some l; after = k }) b refl refl,
      )
      refl

module _ (c : Coordinator) (h : Inv c) (o : OwnedLock) (owned : c.owned ≡ some o)
    (t : active c ≡ true) where
  -- If the invariant holds and the coordinator is active, and the refresh of its lock throws, then the
  -- answer is false and only that lock is being released; and once the release has settled and the
  -- scheduler returns, nothing is being released, no operation runs, and a probe of the new generation
  -- is pending.
  pub validate_ownership-throws :
      ((validate_ownership c false).1 ≡ false)
      × ((validate_ownership c false).0.releasing ≡ o.lock ∷ [])
      × (let d = run (validate_ownership c false).0 (proceeds o.lock true) in
          (d.releasing ≡ [])
          × (d.phase ≡ idle)
          × (d.probe ≡ some (record { id = c.next_probe; generation = suc c.generation })))
  unfolding continue schedule_probe
  validate_ownership-throws =
      let rests = active_rests c h t in
      let k : Continuation = probes (suc c.generation) in
      let left : Coordinator =
        handed c c.should_run c.disposed (some o.lock) (o.lock ∷ c.releasing) k in
      rw
        (
          validate_ownership_lost c t,
          hand_over-some c c.should_run c.disposed k o owned,
          run-proceeds left o.lock true k rests.0 (ground arith) (ground arith),
        )
        (ground arith)

-- The steps in which an attempt wins the election.
abbrev pub wins : List Action
wins = acquires (granted true) ∷ activation (activates true) ∷ []

run-wins :
    (d : Coordinator) (g : ℕ) (b : Bool)
    → d.phase ≡ acquiring g b
    → is_requested_generation d g ≡ true
    → run d wins ≡ record d {
      next_lock = suc d.next_lock;
      owned = some (record { generation = g; lock = d.next_lock });
      phase = idle;
      activated = true;
      runtime = true;
    }
unfolding run step acquisition_ends activation_ends
run-wins d g b p t = ground arith

continue_attempts :
    (d : Coordinator) (g : ℕ) (b s : Bool)
    → is_requested_generation d g ≡ true
    → continue d (attempts g b) s ≡ record d { phase = acquiring g b }
unfolding continue
continue_attempts d g b s t = ground arith

start_owned :
    (c : Coordinator) (b : Bool) (o : OwnedLock)
    → c.owned ≡ some o
    → c.disposed ≡ false
    → start c b
      ≡ handed c true c.disposed
          (some o.lock)
          (o.lock ∷ c.releasing)
          (attempts (suc c.generation) b)
unfolding start
start_owned c b o e f =
    if_keeps
      (λ r.
        r
        ≡ handed c true c.disposed (some o.lock) (o.lock ∷ c.releasing)
            (attempts (suc c.generation) b))
      c.disposed (λ t. absurd (ground arith))
      (λ _. hand_over-some c true c.disposed (attempts (suc c.generation) b) o e)

-- If the invariant holds and an active coordinator is started again, then once its lock's release
-- has settled, and `acquire` grants a lock that both refreshes confirm and `activate` succeeds, it
-- is active again, under the next generation and the new lock.
pub start-wins :
    (c : Coordinator) (b : Bool) (o : OwnedLock)
    → Inv c
    → c.owned ≡ some o
    → active c ≡ true
    → let d = run (run (start c b) (proceeds o.lock true)) wins in
      (active d ≡ true)
      × (d.owned ≡ some (record { generation = suc c.generation; lock = c.next_lock }))
start-wins c b o h owned t =
    let rests = active_rests c h t in
    let k : Continuation = attempts (suc c.generation) b in
    let left : Coordinator = handed c true c.disposed (some o.lock) (o.lock ∷ c.releasing) k in
    rw
      (
        start_owned c b o owned (ground arith),
        run-proceeds left o.lock true k rests.0 (ground arith) (ground arith),
        continue_attempts (freed left o.lock k) (suc c.generation) b true (ground arith),
        run-wins (record (freed left o.lock k) { phase = acquiring (suc c.generation) b })
            (suc c.generation) b refl (ground arith),
      )
      (ground arith)

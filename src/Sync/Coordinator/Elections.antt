-- ===== src/Sync/Coordinator/Elections.antt =====
-- src/sync/backgroundCoordinator.ts: the coordinator after any actions.
use cursor_setting_sync.Base.{
  ℕ, ◌+◌, ◌≤◌, ◌<◌, ◌≡◌, ◌⊎◌, true, false, List, [], ◌∷◌, arith, length, In, In-filter, nat_beq_iff,
  ◌!=◌, nat_eq,
}
use cursor_setting_sync.Sync.Coordinator.{
  hand_over, start, stand_down, validate_ownership, begin, resume, continue, schedule_probe,
  acquisition_ends, activation_ends, give_up, probe_fires, release_settles, Action, starts,
  validates, resumes, stops, disposes, begins, acquires, activation, fires, releases, step, run,
}
use cursor_setting_sync.Sync.CoordinatorState.{
  Phase, idle, waiting, acquiring, activating, Coordinator, created, active, owns,
}
use cursor_setting_sync.Sync.Coordinator.Invariant.{Inv, created-Inv, IsActivating, owned_count}
use cursor_setting_sync.Sync.Coordinator.Preserved.{
  start-Inv, stand_down-Inv, validate_ownership-Inv, begin-Inv, resume-Inv, release_settles-Inv,
}
use cursor_setting_sync.Sync.Coordinator.Attempt.{
  acquisition_ends-Inv, activation_ends-Inv, probe_fires-Inv,
}

-- Every step keeps the invariant.
pub step-Inv : (c : Coordinator) (a : Action) → Inv c → Inv (step c a)
unfolding step
step-Inv c (starts b) h = start-Inv c b h
step-Inv c stops h = stand_down-Inv c false h
step-Inv c disposes h = stand_down-Inv c true h
step-Inv c (validates b) h = validate_ownership-Inv c b h
step-Inv c begins h = begin-Inv c h
step-Inv c (resumes b) h = resume-Inv c b h
step-Inv c (acquires outcome) h = acquisition_ends-Inv c h outcome
step-Inv c (activation outcome) h = activation_ends-Inv c h outcome
step-Inv c (fires id) h = probe_fires-Inv c h id
step-Inv c (releases l) h = release_settles-Inv c l h

pub run-Inv : (c : Coordinator) (actions : List Action) → Inv c → Inv (run c actions)
unfolding run
run-Inv c [] h = h
run-Inv c (a ∷ rest) h = run-Inv (step c a) rest (step-Inv c a h)

abbrev pub IsAcquiring : Phase → Type 0
IsAcquiring (acquiring g b) = Unit
IsAcquiring idle = ⊥
IsAcquiring (waiting x) = ⊥
IsAcquiring (activating o) = ⊥

-- A lock is owned, or is being released, or has been released.
abbrev pub IsHeld : Coordinator → ℕ → Type 0
IsHeld c lock = (owns c lock ≡ true) ⊎ In lock c.releasing

abbrev pub IsPlaced : Coordinator → Type 0
IsPlaced c = (lock : ℕ) → lock < c.next_lock → IsHeld c lock ⊎ In lock c.released

step-IsPlaced : (c : Coordinator) (a : Action) → Inv c → IsPlaced c → IsPlaced (step c a)
unfolding step start stand_down validate_ownership hand_over begin resume continue schedule_probe
    acquisition_ends activation_ends give_up probe_fires release_settles
step-IsPlaced c (starts b) i h = λ l k. ground (arith, h l)
step-IsPlaced c stops i h = λ l k. ground (arith, h l)
step-IsPlaced c disposes i h = λ l k. ground (arith, h l)
step-IsPlaced c (validates b) i h = λ l k. ground (arith, h l)
step-IsPlaced c begins i h = λ l k. ground (arith, h l)
step-IsPlaced c (resumes b) i h = λ l k. ground (arith, h l)
step-IsPlaced c (acquires outcome) i h = λ l k. ground (arith, h l, i.fits)
step-IsPlaced c (activation outcome) i h = λ l k. ground (arith, h l)
step-IsPlaced c (fires id) i h = λ l k. ground (arith, h l)
step-IsPlaced c (releases r) i h =
    λ l k. ground (arith, h l, In-filter (λ other. other != r) l c.releasing, nat_beq_iff l r)

run-IsPlaced :
    (c : Coordinator) (actions : List Action) → Inv c → IsPlaced c → IsPlaced (run c actions)
unfolding run
run-IsPlaced c [] i h = h
run-IsPlaced c (a ∷ rest) i h =
    run-IsPlaced (step c a) rest (step-Inv c a i) (step-IsPlaced c a i h)

-- What the locks are while the coordinator runs: at most one is not given back, each that was
-- acquired is not given back or released, and while another is awaited all are released.
abbrev pub OneLock : Coordinator → Type 0
OneLock c =
    (owned_count c.owned + length c.releasing ≤ 1)
    × IsPlaced c
    × (IsAcquiring c.phase
        → (owned_count c.owned + length c.releasing ≡ 0)
          × ((lock : ℕ) → lock < c.next_lock → In lock c.released))

-- After any actions of a new coordinator, of the locks that it ever acquired each is owned, is being
-- released or has been released; at most one is owned or still being released; and while it awaits
-- another there is none, and the release of each earlier lock has settled.
pub run-OneLock : (actions : List Action) → OneLock (run created actions)
run-OneLock actions =
    let h = run-Inv created actions created-Inv in
    let p = run-IsPlaced created actions created-Inv (λ l k. absurd (omega arith)) in
    (h.alone, p, λ a. (ground (arith, h.fits), λ l k. ground (arith, h.fits, p l k)))

-- After any actions of a new coordinator, each lock that it ever acquired is owned, is being
-- released, or has been released: the three numbers add up to the number of acquisitions.
pub locks_accounted :
    (actions : List Action)
    → (run created actions).next_lock
      ≡ owned_count (run created actions).owned
        + length (run created actions).releasing
        + length (run created actions).released
locks_accounted actions = (run-Inv created actions created-Inv).kept

-- After any actions of a new coordinator, what an activation opened is open only while an activation
-- is still awaited or while the coordinator is active: its lock is owned and of the generation that is
-- wanted.
pub runtime_guarded :
    (actions : List Action)
    → (run created actions).runtime ≡ true
    → IsActivating (run created actions).phase ⊎ (active (run created actions) ≡ true)
runtime_guarded actions r =
    let h = run-Inv created actions created-Inv in
    ground (arith, h.runtime_owned, h.activated_owned, h.owned_live)

-- A disposed coordinator stays so, is not active, and does not call `acquire` again.
abbrev pub IsRetired : Coordinator → Coordinator → Type 0
IsRetired before after =
    (after.disposed ≡ true)
    × (active after ≡ false)
    × (IsAcquiring after.phase → IsAcquiring before.phase)

step-IsRetired : (c : Coordinator) (a : Action) → c.disposed ≡ true → IsRetired c (step c a)
unfolding step start stand_down validate_ownership hand_over begin resume continue schedule_probe
    acquisition_ends activation_ends give_up probe_fires release_settles
step-IsRetired c (starts b) h = ground arith
step-IsRetired c stops h = ground arith
step-IsRetired c disposes h = ground arith
step-IsRetired c (validates b) h = ground arith
step-IsRetired c begins h = ground arith
step-IsRetired c (resumes b) h = ground arith
step-IsRetired c (acquires outcome) h = ground arith
step-IsRetired c (activation outcome) h = ground arith
step-IsRetired c (fires id) h = ground arith
step-IsRetired c (releases l) h = ground arith

-- Whatever happens after a disposal, the coordinator is disposed and not active, and it awaits
-- `acquire` only if it already did so when it was disposed.
pub run-IsRetired :
    (c : Coordinator) (actions : List Action) → c.disposed ≡ true → IsRetired c (run c actions)
unfolding run
run-IsRetired c [] h = (h, ground arith, λ a. a)
run-IsRetired c (a ∷ rest) h =
    let now = step-IsRetired c a h in
    let later = run-IsRetired (step c a) rest now.0 in (later.0, later.1, λ i. now.2 (later.2 i))

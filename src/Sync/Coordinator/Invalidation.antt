-- ===== src/Sync/Coordinator/Invalidation.antt =====
-- src/sync/backgroundCoordinator.ts: what a start, a stop, a disposal and a lost lock put an end to.
use cursor_setting_sync.Base.{
  ℕ, suc, ◌≤◌, ◌<◌, ◌≡◌, refl, inl, inr, Bool, true, false, ◌&&◌, ◌||◌, not, none, List, [], ◌∷◌,
  arith, Option-cases, if_keeps, nat_eq,
}
use cursor_setting_sync.Sync.Coordinator.{
  hand_over, start, stand_down, validate_ownership, begin, resume, continue, schedule_probe,
  acquisition_ends, activation_ends, give_up, probe_fires, release_settles, Action, starts,
  validates, resumes, stops, disposes, begins, acquires, activation, fires, releases, step, run,
}
use cursor_setting_sync.Sync.CoordinatorState.{
  Continuation, attempts, probes, releases_again, Coordinator, is_current, active,
  is_requested_generation,
}
use cursor_setting_sync.Sync.Coordinator.HandOver.{renewed, hand_over-none, hand_over-some}

generation_mono : (c : Coordinator) (a : Action) → c.generation ≤ (step c a).generation
unfolding step start stand_down validate_ownership hand_over begin resume continue schedule_probe
    acquisition_ends activation_ends give_up probe_fires release_settles
generation_mono c (starts b) = ground arith
generation_mono c stops = ground arith
generation_mono c disposes = ground arith
generation_mono c (validates b) = ground arith
generation_mono c begins = ground arith
generation_mono c (resumes b) = ground arith
generation_mono c (acquires outcome) = ground arith
generation_mono c (activation outcome) = ground arith
generation_mono c (fires id) = ground arith
generation_mono c (releases l) = ground arith

run-generation_mono :
    (c : Coordinator) (actions : List Action) → c.generation ≤ (run c actions).generation
unfolding run
run-generation_mono c [] = omega arith
run-generation_mono c (a ∷ rest) =
    omega (arith, generation_mono c a, run-generation_mono (step c a) rest)

-- The generation is a new one; no earlier one is requested or current with any lock, now or after
-- any actions; the coordinator is not active, nothing that an activation opened is left open, and no
-- lock is owned.
abbrev pub IsInvalidated : Coordinator → Coordinator → Type 0
IsInvalidated before after =
    (before.generation < after.generation)
    × ((actions : List Action) (g l : ℕ)
        → g ≤ before.generation
        → (is_requested_generation (run after actions) g ≡ false)
          × (is_current (run after actions) g l ≡ false))
    × (active after ≡ false)
    × (after.runtime ≡ false)
    × (after.owned ≡ none)

hand_over-generation :
    (c : Coordinator) (k : Continuation) → (hand_over c k).generation ≡ c.generation
unfolding hand_over
hand_over-generation c k = ground arith

hand_over-IsQuiet :
    (c : Coordinator) (r d : Bool) (k : Continuation)
    → (active (hand_over (renewed c r d) k) ≡ false)
      × ((hand_over (renewed c r d) k).runtime ≡ false)
      × ((hand_over (renewed c r d) k).owned ≡ none)
hand_over-IsQuiet c r d k = elim (Option-cases c.owned) [
  | inl e ↦ rw (hand_over-none c r d k e) (refl, refl, refl)
  | inr (o, e) ↦ rw (hand_over-some c r d k o e) (refl, refl, refl)
]

hand_over-IsInvalidated :
    (c : Coordinator) (r d : Bool) (k : Continuation)
    → IsInvalidated c (hand_over (renewed c r d) k)
hand_over-IsInvalidated c r d k =
    let new = hand_over-generation (renewed c r d) k in
    let (x, y, z) = hand_over-IsQuiet c r d k in
    (
      ground (arith, new),
      λ actions g l i.
          let later = run-generation_mono (hand_over (renewed c r d) k) actions in
          let neither : is_requested_generation (run (hand_over (renewed c r d) k) actions) g
              ≡ false =
            ground (arith, new, later) in
          (neither, ground (arith, neither)),
      x,
      y,
      z,
    )

-- The actions that end every earlier election: a start where the coordinator is not disposed, a
-- stop, a disposal, and a refresh that throws in an active coordinator.
abbrev pub interrupts : Coordinator → Action → Bool
interrupts c (starts b) = not c.disposed
interrupts c stops = true
interrupts c disposes = true
interrupts c (validates refreshed) = active c && not refreshed
interrupts c begins = false
interrupts c (resumes b) = false
interrupts c (acquires outcome) = false
interrupts c (activation outcome) = false
interrupts c (fires id) = false
interrupts c (releases l) = false

pub validate_ownership_lost :
    (c : Coordinator)
    → active c ≡ true
    → validate_ownership c false
      ≡ (hand_over (renewed c c.should_run c.disposed) (probes (suc c.generation)), false)
unfolding validate_ownership
validate_ownership_lost c t = ground arith

lost-IsInvalidated :
    (c : Coordinator) → active c ≡ true → IsInvalidated c (validate_ownership c false).0
lost-IsInvalidated c t =
    rw (validate_ownership_lost c t)
      (hand_over-IsInvalidated c c.should_run c.disposed (probes (suc c.generation)))

start-IsInvalidated :
    (c : Coordinator) (b : Bool) → c.disposed ≡ false → IsInvalidated c (start c b)
unfolding start
start-IsInvalidated c b f =
    if_keeps (λ r. IsInvalidated c r) c.disposed (λ t. absurd (ground arith))
      (λ _. hand_over-IsInvalidated c true c.disposed (attempts (suc c.generation) b))

stand_down-IsInvalidated : (c : Coordinator) (b : Bool) → IsInvalidated c (stand_down c b)
unfolding stand_down
stand_down-IsInvalidated c b = hand_over-IsInvalidated c false (c.disposed || b) releases_again

-- At once after a start of a coordinator that is not disposed, after a stop or a disposal, and after
-- the refresh of an active coordinator's lock throws: the generation is a greater one; no generation
-- up to the one before is requested, or current with any lock, now or after any actions; the
-- coordinator is not active, nothing that an activation opened is left open, and no lock is owned.
pub step-IsInvalidated :
    (c : Coordinator) (a : Action) → interrupts c a ≡ true → IsInvalidated c (step c a)
unfolding step
step-IsInvalidated c (starts b) t = start-IsInvalidated c b (ground arith)
step-IsInvalidated c stops t = stand_down-IsInvalidated c false
step-IsInvalidated c disposes t = stand_down-IsInvalidated c true
step-IsInvalidated c (validates true) t = absurd (ground arith)
step-IsInvalidated c (validates false) t = lost-IsInvalidated c (ground arith)
step-IsInvalidated c begins t = absurd (cc)
step-IsInvalidated c (resumes b) t = absurd (cc)
step-IsInvalidated c (acquires outcome) t = absurd (cc)
step-IsInvalidated c (activation outcome) t = absurd (cc)
step-IsInvalidated c (fires id) t = absurd (cc)
step-IsInvalidated c (releases l) t = absurd (cc)

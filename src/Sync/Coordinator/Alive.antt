-- ===== src/Sync/Coordinator/Alive.antt =====
-- src/sync/backgroundCoordinator.ts: an election that is wanted, and what keeps it going.
use cursor_setting_sync.Base.{
  ℕ, suc, ◌+◌, ◌≤◌, ◌≡◌, refl, inl, inr, Bool, true, false, ◌&&◌, not, Option, none, some, List, [],
  ◌∷◌, ◌++◌, arith, Option-cases, Bool-cases, every, if_keeps,
}
use cursor_setting_sync.Sync.Coordinator.{
  hand_over, start, stand_down, validate_ownership, begin, resume, continue, schedule_probe,
  Acquisition, no_lock, throws, granted, Activation, acquisition_ends, activation_ends, give_up,
  probe_fires, release_settles, Action, starts, validates, resumes, stops, disposes, begins,
  acquires, activation, fires, releases, step, run,
}
use cursor_setting_sync.Sync.CoordinatorState.{
  PendingProbe, Continuation, Operation, Phase, attempts, probes, Coordinator, created, runs,
  active,
}
use cursor_setting_sync.Sync.Coordinator.Pipeline.{weight, total_weight, total_weight-append}
use cursor_setting_sync.Sync.Coordinator.Invariant.{Inv, created-Inv, stakes, pipeline}
use cursor_setting_sync.Sync.Coordinator.HandOver.{
  renewed, hand_over-none, hand_over-some, pipeline-append,
}
use cursor_setting_sync.Sync.Coordinator.Elections.{run-Inv, step-Inv}

-- A wanted election has something that keeps it going.
abbrev IsAlive : Coordinator → Type 0
IsAlive c = runs c ≡ true → 1 ≤ stakes c

-- No scheduler of a probe throws.
abbrev pub schedules : Action → Bool
schedules (resumes scheduled) = scheduled
schedules (acquires (no_lock scheduled)) = scheduled
schedules (acquires (throws scheduled)) = scheduled
schedules (acquires (granted refreshed)) = true
schedules (starts b) = true
schedules stops = true
schedules disposes = true
schedules (validates b) = true
schedules begins = true
schedules (activation outcome) = true
schedules (fires id) = true
schedules (releases l) = true

added_weight :
    (r : Bool) (g : ℕ) (p : Phase) (xs : List Operation) (y : Operation)
    → total_weight r g (pipeline p (xs ++ y ∷ []))
      ≡ total_weight r g (pipeline p xs) + weight r g y.after
unfolding total_weight
added_weight r g p xs y =
    rw (pipeline-append p xs y) (omega (arith, total_weight-append r g (pipeline p xs) (y ∷ [])))

hand_over-IsAlive :
    (c : Coordinator) (r d : Bool) (k : Continuation)
    → (not d && r ≡ true → weight true (suc c.generation) k ≡ 1)
    → IsAlive (hand_over (renewed c r d) k)
hand_over-IsAlive c r d k w = elim (Option-cases c.owned) [
  | inl e ↦ rw (hand_over-none c r d k e) (λ t. ground (
    arith,
    added_weight (not d && r) (suc c.generation) c.phase c.queue
        (record { release = none; after = k }),
  ))
  | inr (o, e) ↦ rw (hand_over-some c r d k o e) (λ t. ground (
    arith,
    added_weight (not d && r) (suc c.generation) c.phase c.queue
        (record { release = some o.lock; after = k }),
  ))
]

module _ (c : Coordinator) (h : Inv c) (alive : IsAlive c) where
  start-IsAlive : (b : Bool) → IsAlive (start c b)
  unfolding start
  start-IsAlive b =
      if_keeps (λ r. IsAlive r) c.disposed (λ _. alive)
        (λ f.
          hand_over-IsAlive c true c.disposed (attempts (suc c.generation) b) (λ t. ground arith))

  validate_ownership-IsAlive : (b : Bool) → IsAlive (validate_ownership c b).0
  unfolding validate_ownership
  validate_ownership-IsAlive true = ground arith
  validate_ownership-IsAlive false = elim (Bool-cases (active c)) [
    | inl t ↦ rw t (
        hand_over-IsAlive c c.should_run c.disposed (probes (suc c.generation)) (λ t. ground arith))
    | inr f ↦ rw f alive
  ]

  begin-IsAlive : IsAlive (begin c)
  unfolding begin
  begin-IsAlive = ground arith

  resume-IsAlive : IsAlive (resume c true)
  unfolding resume continue schedule_probe total_weight
  resume-IsAlive = ground (arith, h.fits, h.owned_last)

  acquisition_ends-IsAlive :
      (outcome : Acquisition)
      → schedules (acquires outcome) ≡ true
      → IsAlive (acquisition_ends c outcome)
  unfolding acquisition_ends schedule_probe give_up total_weight
  acquisition_ends-IsAlive outcome s = ground (arith, h.fits)

  activation_ends-IsAlive : (outcome : Activation) → IsAlive (activation_ends c outcome)
  unfolding activation_ends give_up total_weight
  activation_ends-IsAlive outcome = ground (arith, h.fits, h.owned_live)

  probe_fires-IsAlive : (id : ℕ) → IsAlive (probe_fires c id)
  unfolding probe_fires
  probe_fires-IsAlive id = by_probe c.probe refl
    where
      by_probe : (p : Option PendingProbe) → c.probe ≡ p → IsAlive (probe_fires c id)
      by_probe none e = ground arith
      by_probe (some p) e = ground (
        arith,
        h.probe_live,
        added_weight (runs c) c.generation c.phase c.queue
            (record { release = none; after = attempts p.generation true }),
      )

  release_settles-IsAlive : (l : ℕ) → IsAlive (release_settles c l)
  unfolding release_settles
  release_settles-IsAlive l = ground arith

step-IsAlive :
    (c : Coordinator) (a : Action) → Inv c → schedules a ≡ true → IsAlive c → IsAlive (step c a)
unfolding step
step-IsAlive c (starts b) h s alive = start-IsAlive c h alive b
step-IsAlive c stops h s alive = λ t. absurd (unfold stand_down hand_over in ground arith)
step-IsAlive c disposes h s alive = λ t. absurd (unfold stand_down hand_over in ground arith)
step-IsAlive c (validates b) h s alive = validate_ownership-IsAlive c h alive b
step-IsAlive c begins h s alive = begin-IsAlive c h alive
step-IsAlive c (resumes true) h s alive = resume-IsAlive c h alive
step-IsAlive c (resumes false) h s alive = absurd (cc)
step-IsAlive c (acquires outcome) h s alive = acquisition_ends-IsAlive c h alive outcome s
step-IsAlive c (activation outcome) h s alive = activation_ends-IsAlive c h alive outcome
step-IsAlive c (fires id) h s alive = probe_fires-IsAlive c h alive id
step-IsAlive c (releases l) h s alive = release_settles-IsAlive c h alive l

run-IsAlive :
    (c : Coordinator) (actions : List Action)
    → Inv c
    → every schedules actions ≡ true
    → IsAlive c
    → IsAlive (run c actions)
unfolding run every
run-IsAlive c [] h s alive = alive
run-IsAlive c (a ∷ rest) h s alive =
    run-IsAlive (step c a) rest (step-Inv c a h) (ground arith)
      (step-IsAlive c a h (ground arith) alive)

-- If no scheduler of a probe throws, then after any actions of a new coordinator, while it is
-- started and not disposed, exactly one thing keeps the election of the current generation going:
-- the lock that it owns, a pending probe, or one operation that attempts or will probe for that
-- generation.
pub run-stakes :
    (actions : List Action)
    → every schedules actions ≡ true
    → runs (run created actions) ≡ true
    → stakes (run created actions) ≡ 1
run-stakes actions s t =
    let h = run-Inv created actions created-Inv in
    let alive = run-IsAlive created actions created-Inv s (λ e. cc) in
    omega (arith, h.single, alive t)

-- ===== src/Sync/Coordinator/HandOver.antt =====
-- src/sync/backgroundCoordinator.ts: what `start`, `standDown` and a failed `validateOwnership` do
-- alike.
use cursor_setting_sync.Base.{
  ℕ, suc, ◌≤◌, ◌≡◌, refl, ◌⊎◌, inl, inr, Bool, false, ◌&&◌, not, Option, none, some, List, [], ◌∷◌,
  ◌++◌, arith, In, Option-cases,
}
use cursor_setting_sync.Sync.Coordinator.{hand_over}
use cursor_setting_sync.Sync.CoordinatorState.{
  OwnedLock, Continuation, Operation, Phase, Coordinator, runs,
}
use cursor_setting_sync.Sync.Coordinator.Pipeline.{
  weight, total_weight, total_weight-append, total_weight-next, IsPast, ArePast, ArePast-next,
  ArePast-append, Waits, Waits-append, Waits-next, Waits-last, LiveLast, append-LiveLast,
}
use cursor_setting_sync.Sync.Coordinator.Invariant.{pipeline, phase_weight, FitsPhase, Inv}

abbrev pub renewed : Coordinator → Bool → Bool → Coordinator
renewed c should_run disposed = record c {
  should_run = should_run;
  disposed = disposed;
  generation = suc c.generation;
}

-- The coordinator after it, the lock that it still owned being on its way out.
abbrev pub handed : Coordinator → Bool → Bool → Option ℕ → List ℕ → Continuation → Coordinator
handed c should_run disposed release releasing k = record c {
  should_run = should_run;
  disposed = disposed;
  generation = suc c.generation;
  probe = none;
  activated = false;
  runtime = false;
  owned = none;
  releasing = releasing;
  queue = c.queue ++ record { release = release; after = k } ∷ [];
}

pub hand_over-none :
    (c : Coordinator) (r d : Bool) (k : Continuation)
    → c.owned ≡ none
    → hand_over (renewed c r d) k ≡ handed c r d none c.releasing k
unfolding hand_over
hand_over-none c r d k e = ground arith

pub hand_over-some :
    (c : Coordinator) (r d : Bool) (k : Continuation) (o : OwnedLock)
    → c.owned ≡ some o
    → hand_over (renewed c r d) k ≡ handed c r d (some o.lock) (o.lock ∷ c.releasing) k
unfolding hand_over
hand_over-some c r d k o e = ground arith

pub pipeline-append :
    (p : Phase) (xs : List Operation) (y : Operation)
    → pipeline p (xs ++ y ∷ []) ≡ pipeline p xs ++ y ∷ []
pipeline-append p xs y = ground arith

phase_weight-next :
    (c : Coordinator) (r : Bool)
    → FitsPhase c c.phase
    → phase_weight r (suc c.generation) c.phase ≡ 0
phase_weight-next c r h = ground arith

-- The owned lock, if there is one, has joined the locks that are released.
abbrev Leaves : Coordinator → Option ℕ → List ℕ → Type 0
Leaves c release releasing =
    ((c.owned ≡ none) × (releasing ≡ c.releasing))
    ⊎ ((o : OwnedLock) × (c.owned ≡ some o)
        × (release ≡ some o.lock)
        × (releasing ≡ o.lock ∷ c.releasing))

module _ (c : Coordinator) (h : Inv c) (r d : Bool) (k : Continuation) (release : Option ℕ)
    (releasing : List ℕ) (leaves : Leaves c release releasing) where
  abbrev operation : Operation
  operation = record { release = release; after = k }

  handed-past :
      IsPast (suc c.generation) k
      → ArePast (suc c.generation) (pipeline c.phase (c.queue ++ operation ∷ []))
  handed-past past = rw (pipeline-append c.phase c.queue operation) (
      ArePast-append (suc c.generation) (pipeline c.phase c.queue) operation
        (ArePast-next c.generation (pipeline c.phase c.queue) h.past) past)

  handed-FitsPhase : FitsPhase (handed c r d release releasing k) c.phase
  handed-FitsPhase = ground (arith, h.fits, h.owned_live)

  handed-total_weight :
      total_weight (not d && r) (suc c.generation) (pipeline c.phase (c.queue ++ operation ∷ []))
      ≡ weight (not d && r) (suc c.generation) k
  unfolding total_weight
  handed-total_weight = rw (pipeline-append c.phase c.queue operation) (
      omega (
        arith,
        total_weight-append (not d && r) (suc c.generation) (pipeline c.phase c.queue)
            (operation ∷ []),
        total_weight-next (not d && r) c.generation (pipeline c.phase c.queue) h.past,
      ))

  handed-LiveLast :
      LiveLast (not d && r) (suc c.generation) (pipeline c.phase (c.queue ++ operation ∷ []))
  handed-LiveLast = rw (pipeline-append c.phase c.queue operation) (
      append-LiveLast (not d && r) (suc c.generation) (pipeline c.phase c.queue) operation
        (total_weight-next (not d && r) c.generation (pipeline c.phase c.queue) h.past))

  weight-le : (b : Bool) (g : ℕ) (k : Continuation) → weight b g k ≤ 1
  weight-le b g k = ground arith

  handed-awaited :
      (lock : ℕ)
      → In lock releasing
      → Waits (not d && r) (suc c.generation) lock (pipeline c.phase (c.queue ++ operation ∷ []))
  handed-awaited lock i = rw (pipeline-append c.phase c.queue operation) (
      ground (
        arith,
        h.awaited lock,
        Waits-append (not d && r) (suc c.generation) lock (pipeline c.phase c.queue)
            (operation ∷ []),
        Waits-next (runs c) (not d && r) c.generation lock (pipeline c.phase c.queue) h.past,
        Waits-last (not d && r) c.generation lock (pipeline c.phase c.queue) operation h.past,
      ))

  pub handed-Inv : IsPast (suc c.generation) k → Inv (handed c r d release releasing k)
  handed-Inv past = record {
    past = handed-past past;
    fits = handed-FitsPhase;
    owned_live = tt;
    probe_live = tt;
    last = handed-LiveLast;
    owned_last = λ e. absurd (omega arith);
    single = omega (
      arith,
      handed-total_weight,
      weight-le (not d && r) (suc c.generation) k,
      phase_weight-next c (not d && r) h.fits,
    );
    alone = ground (arith, h.alone);
    known = λ lock i. ground (arith, h.known lock, h.owned_live);
    awaited = handed-awaited;
    kept = ground (arith, h.kept);
    activated_owned = λ q. cc;
    runtime_owned = λ q. cc;
  }

pub hand_over-Inv :
    (c : Coordinator)
    → Inv c
    → (r d : Bool) (k : Continuation) → IsPast (suc c.generation) k
    → Inv (hand_over (renewed c r d) k)
hand_over-Inv c h r d k past = elim (Option-cases c.owned) [
  | inl e ↦
      rw (hand_over-none c r d k e) (handed-Inv c h r d k none c.releasing (inl (e, refl)) past)
  | inr (o, e) ↦
      rw (hand_over-some c r d k o e)
        (handed-Inv c h r d k (some o.lock) (o.lock ∷ c.releasing) (inr (o, e, refl, refl)) past)
]

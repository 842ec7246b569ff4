-- ===== src/Sync/Coordinator/Invariant.antt =====
-- src/sync/backgroundCoordinator.ts: what holds of the coordinator between two steps.
use cursor_setting_sync.Base.{
  ℕ, ◌+◌, ◌≤◌, ◌<◌, ◌≡◌, ◌⊎◌, Bool, true, Option, none, some, List, [], ◌∷◌, arith, length, In,
}
use cursor_setting_sync.Sync.CoordinatorState.{
  OwnedLock, PendingProbe, Operation, Phase, idle, waiting, acquiring, activating, Coordinator,
  created, runs, attempts,
}
use cursor_setting_sync.Sync.Coordinator.Pipeline.{weight, total_weight, ArePast, Waits, LiveLast}

-- The operations that have not ended and still have a release to await.
abbrev pub pipeline : Phase → List Operation → List Operation
pipeline (waiting operation) queue = operation ∷ queue
pipeline idle queue = queue
pipeline (acquiring generation run_initial_sync) queue = queue
pipeline (activating owned) queue = queue

abbrev pub phase_weight : Bool → ℕ → Phase → ℕ
phase_weight live generation (acquiring g run_initial_sync) =
    weight live generation (attempts g run_initial_sync)
phase_weight live generation idle = 0
phase_weight live generation (waiting operation) = 0
phase_weight live generation (activating owned) = 0

abbrev pub owned_count : Option OwnedLock → ℕ
owned_count none = 0
owned_count (some owned) = 1

abbrev pub probe_count : Option PendingProbe → ℕ
probe_count none = 0
probe_count (some pending) = 1

-- How many things keep the election of the current generation going: the owner, a pending probe,
-- and the operations that attempt it or will probe for it.
abbrev pub stakes : Coordinator → ℕ
stakes c =
    owned_count c.owned
    + probe_count c.probe
    + phase_weight (runs c) c.generation c.phase
    + total_weight (runs c) c.generation (pipeline c.phase c.queue)

-- What the phase says of the rest.
abbrev pub FitsPhase : Coordinator → Phase → Type 0
FitsPhase c idle = Unit
FitsPhase c (waiting operation) = Unit
FitsPhase c (acquiring g run_initial_sync) =
    (g ≤ c.generation)
    × (c.owned ≡ none)
    × (c.releasing ≡ [])
    × (weight (runs c) c.generation (attempts g run_initial_sync) ≡ 1 → c.queue ≡ [])
FitsPhase c (activating owned) =
    ((c.owned ≡ none) × (owned.generation < c.generation) × (owned.lock < c.next_lock))
    ⊎ (c.owned ≡ some owned)

abbrev pub IsActivating : Phase → Type 0
IsActivating (activating owned) = Unit
IsActivating idle = ⊥
IsActivating (waiting operation) = ⊥
IsActivating (acquiring g run_initial_sync) = ⊥

-- The owner and the pending probe are of the current generation, which runs.
abbrev pub OwnerFits : Coordinator → Option OwnedLock → Type 0
OwnerFits c none = Unit
OwnerFits c (some owned) =
    (runs c ≡ true) × (owned.generation ≡ c.generation) × (owned.lock < c.next_lock)

abbrev pub ProbeFits : Coordinator → Option PendingProbe → Type 0
ProbeFits c none = Unit
ProbeFits c (some pending) = (runs c ≡ true) × (pending.generation ≡ c.generation)

pub record Inv (c : Coordinator) : Type 0 where
  pub past : ArePast c.generation (pipeline c.phase c.queue)
  pub fits : FitsPhase c c.phase
  pub owned_live : OwnerFits c c.owned
  pub probe_live : ProbeFits c c.probe
  pub last : LiveLast (runs c) c.generation (pipeline c.phase c.queue)
  pub owned_last : owned_count c.owned ≡ 1 → pipeline c.phase c.queue ≡ []
  pub single : stakes c ≤ 1
  pub alone : owned_count c.owned + length c.releasing ≤ 1
  pub known : (lock : ℕ) → In lock c.releasing → lock < c.next_lock
  pub awaited :
      (lock : ℕ) → In lock c.releasing → Waits (runs c) c.generation lock (pipeline c.phase c.queue)
  pub kept : c.next_lock ≡ owned_count c.owned + length c.releasing + length c.released
  pub activated_owned : c.activated ≡ true → (owned_count c.owned ≡ 1) × ¬ IsActivating c.phase
  pub runtime_owned : c.runtime ≡ true → (c.activated ≡ true) ⊎ IsActivating c.phase

pub created-Inv : Inv created
unfolding total_weight
created-Inv = ground arith

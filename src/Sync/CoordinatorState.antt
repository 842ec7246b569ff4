-- ===== src/Sync/CoordinatorState.antt =====
-- src/sync/backgroundCoordinator.ts, `BackgroundCoordinator`: what it holds, what its pending operations
-- are, and the tests on it.
use cursor_setting_sync.Base.{
  ℕ, Bool, false, ◌&&◌, not, Option, none, some, List, [], nat_beq, nat_eq,
}

pub record OwnedLock : Type 0 where
  pub generation : ℕ
  pub lock : ℕ

-- A pending probe, with the generation that its callback closes over.
pub record PendingProbe : Type 0 where
  pub id : ℕ
  pub generation : ℕ

-- What a queued operation does after the release that it awaits, and what an attempt does after
-- its own.
pub data Continuation : Type 0 where
  attempts : ℕ → Bool → Continuation
  probes : ℕ → Continuation
  releases_again ends : Continuation

-- An operation: the lock whose release it awaits first, if it has to, and the rest.
pub record Operation : Type 0 where
  pub release : Option ℕ
  pub after : Continuation

-- Where the serialized operations stand: none runs, or the one that does awaits a release, `acquire`
-- or `activate`.
pub data Phase : Type 0 where
  idle : Phase
  waiting : Operation → Phase
  acquiring : ℕ → Bool → Phase
  activating : OwnedLock → Phase

pub record Coordinator : Type 0 where
  pub generation : ℕ
  pub should_run : Bool
  pub disposed : Bool
  pub owned : Option OwnedLock
  pub activated : Bool
  pub probe : Option PendingProbe
  pub phase : Phase
  pub queue : List Operation
  pub runtime : Bool
  pub releasing : List ℕ
  pub released : List ℕ
  pub next_lock : ℕ
  pub next_probe : ℕ

abbrev pub created : Coordinator
created = record {
  generation = 0;
  should_run = false;
  disposed = false;
  owned = none;
  activated = false;
  probe = none;
  phase = idle;
  queue = [];
  runtime = false;
  releasing = [];
  released = [];
  next_lock = 0;
  next_probe = 0;
}

-- `!this.disposed && this.shouldRun`.
abbrev pub runs : Coordinator → Bool
runs c = not c.disposed && c.should_run

abbrev pub is_requested_generation : Coordinator → ℕ → Bool
is_requested_generation c generation = runs c && nat_beq generation c.generation

-- `this.owned === owned`: an `OwnedLock` is made once for each lock.
abbrev pub owns : Coordinator → ℕ → Bool
owns c lock = elim c.owned [ none ↦ false | some owned ↦ nat_beq owned.lock lock ]

abbrev pub is_current : Coordinator → ℕ → ℕ → Bool
is_current c generation lock = is_requested_generation c generation && elim c.owned [
  | none ↦ false
  | some owned ↦ nat_beq owned.lock lock && nat_beq owned.generation generation
]

abbrev pub active : Coordinator → Bool
active c = elim c.owned [
  | none ↦ false
  | some owned ↦ c.activated && is_current c owned.generation owned.lock
]

-- ===== src/Sync/Coordinator/Lease.antt =====
-- src/sync/backgroundCoordinator.ts: the lock alone, as a lease that is taken and given back.
use cursor_setting_sync.Base.{
  ℕ, suc, ◌≡◌, refl, ◌⊎◌, inl, inr, Option, none, some, List, [], ◌∷◌, nat_beq, arith, Bool-cases,
  filter, nat_eq,
}
use cursor_setting_sync.Base.Sets.{has}
use cursor_setting_sync.Sync.Coordinator.{
  hand_over, start, stand_down, validate_ownership, begin, resume, continue, schedule_probe,
  acquisition_ends, activation_ends, give_up, probe_fires, release_settles, Action, starts,
  validates, resumes, stops, disposes, begins, acquires, activation, fires, releases, step, run,
}
use cursor_setting_sync.Sync.CoordinatorState.{OwnedLock, Coordinator}
use cursor_setting_sync.Sync.Coordinator.Invariant.{Inv}
use cursor_setting_sync.Sync.Coordinator.Elections.{step-Inv}

-- A lease of locks that are numbered in the order in which they are taken: none is out, one is held,
-- or one is on its way back.
pub data Lease : Type 0 where
  free : ℕ → Lease
  held returning : ℕ → ℕ → Lease

-- The first number is that of the next lock.
pub data Lends : Lease → Lease → Type 0 where
  take : (n : ℕ) → Lends (free n) (held (suc n) n)
  give : (n l : ℕ) → Lends (held n l) (returning n l)
  arrive : (n l : ℕ) → Lends (returning n l) (free n)

pub data Reaches : Lease → Lease → Type 0 where
  here : (s : Lease) → Reaches s s
  next : {s t u : Lease} → Lends s t → Reaches t u → Reaches s u

-- What the coordinator's locks are as a lease.
abbrev pub lease_of : ℕ → Option OwnedLock → List ℕ → Lease
lease_of n (some owned) releasing = held n owned.lock
lease_of n none (l ∷ ls) = returning n l
lease_of n none [] = free n

abbrev pub lease : Coordinator → Lease
lease c = lease_of c.next_lock c.owned c.releasing

-- The moves of one step of the coordinator.
abbrev Moves : Coordinator → Coordinator → Type 0
Moves c d =
    (lease c ≡ lease d)
    ⊎ ((lease c ≡ free c.next_lock) × (lease d ≡ held (suc c.next_lock) c.next_lock))
    ⊎ ((lease c ≡ free c.next_lock) × (lease d ≡ returning (suc c.next_lock) c.next_lock))
    ⊎ ((o : OwnedLock) × (lease c ≡ held c.next_lock o.lock)
        × (lease d ≡ returning c.next_lock o.lock))
    ⊎ ((l : ℕ) × (lease c ≡ returning c.next_lock l) × (lease d ≡ free c.next_lock))

release_settles-Moves : (c : Coordinator) (l : ℕ) → Inv c → Moves c (release_settles c l)
unfolding release_settles has filter
release_settles-Moves c l h = by_list c.releasing refl
  where
    by_list : (ls : List ℕ) → c.releasing ≡ ls → Moves c (release_settles c l)
    by_list [] e = inl (ground arith)
    by_list (x ∷ []) e = elim (Bool-cases (nat_beq x l)) [
      | inl t ↦ inr (inr (inr (inr (x, ground (arith, h.alone), ground (arith, h.alone)))))
      | inr f ↦ inl (ground arith)
    ]
    by_list (x ∷ y ∷ ls) e = absurd (ground (arith, h.alone))

step-Moves : (c : Coordinator) (a : Action) → Inv c → Moves c (step c a)
unfolding step start stand_down validate_ownership hand_over begin resume continue schedule_probe
    acquisition_ends activation_ends give_up probe_fires release_settles has filter
step-Moves c (starts b) h = ground (arith, h.alone)
step-Moves c stops h = ground (arith, h.alone)
step-Moves c disposes h = ground (arith, h.alone)
step-Moves c (validates b) h = ground (arith, h.alone)
step-Moves c begins h = ground arith
step-Moves c (resumes b) h = ground (arith, h.alone)
step-Moves c (acquires outcome) h = ground (arith, h.fits)
step-Moves c (activation outcome) h = ground (arith, h.alone, h.fits)
step-Moves c (fires id) h = ground arith
step-Moves c (releases l) h = release_settles-Moves c l h

Moves-Reaches : (c d : Coordinator) → Moves c d → Reaches (lease c) (lease d)
Moves-Reaches c d (inl e) = rw e (here (lease d))
Moves-Reaches c d (inr (inl (e, f))) = rw (e, f) (next (take c.next_lock) (here _))
Moves-Reaches c d (inr (inr (inl (e, f)))) =
    rw (e, f) (next (take c.next_lock) (next (give (suc c.next_lock) c.next_lock) (here _)))
Moves-Reaches c d (inr (inr (inr (inl (o, e, f))))) =
    rw (e, f) (next (give c.next_lock o.lock) (here _))
Moves-Reaches c d (inr (inr (inr (inr (l, e, f))))) =
    rw (e, f) (next (arrive c.next_lock l) (here _))

append-Reaches : {s t u : Lease} → Reaches s t → Reaches t u → Reaches s u
append-Reaches (here s) q = q
append-Reaches (next m p) q = next m (append-Reaches p q)

-- If the invariant holds, whatever happens to the coordinator, its lock goes only through the moves of
-- a lease: it is taken when it is free, held until it is given back, and free again when it has
-- arrived.
pub run-Reaches :
    (c : Coordinator) (actions : List Action) → Inv c → Reaches (lease c) (lease (run c actions))
unfolding run
run-Reaches c [] h = here (lease c)
run-Reaches c (a ∷ rest) h =
    append-Reaches (Moves-Reaches c (step c a) (step-Moves c a h))
      (run-Reaches (step c a) rest (step-Inv c a h))

-- ===== src/Sync/Coordinator/Attempt.antt =====
-- src/sync/backgroundCoordinator.ts: the steps of `attempt` keep the invariant.
use cursor_setting_sync.Base.{
  ℕ, suc, ◌+◌, ◌≡◌, refl, ◌⊎◌, inl, inr, Bool, true, false, Option, none, some, [], ◌∷◌, ◌++◌,
  arith, Bool-cases,
}
use cursor_setting_sync.Sync.Coordinator.{
  schedule_probe, Acquisition, no_lock, throws, granted, Activation, activates, fails,
  acquisition_ends, activation_ends, give_up, probe_fires,
}
use cursor_setting_sync.Sync.CoordinatorState.{
  OwnedLock, PendingProbe, Continuation, Operation, Phase, idle, waiting, acquiring, activating,
  Coordinator, runs, is_requested_generation, is_current, attempts, probes, ends,
}
use cursor_setting_sync.Sync.Coordinator.Pipeline.{
  total_weight, total_weight-append, ArePast-append, Waits-append, append-LiveLast,
}
use cursor_setting_sync.Sync.Coordinator.Invariant.{pipeline, Inv}
use cursor_setting_sync.Sync.Coordinator.HandOver.{pipeline-append}
use cursor_setting_sync.Sync.Coordinator.Preserved.{schedule_probe-Inv, acquiring-Inv}

module _ (c : Coordinator) (h : Inv c) where
  module _ (g : ℕ) (b : Bool) (at : c.phase ≡ acquiring g b) where
    unclaimed : (scheduled : Bool) → Inv (schedule_probe (record c { phase = idle }) g scheduled)
    unclaimed scheduled =
        schedule_probe-Inv (record c { phase = idle }) g scheduled (acquiring-Inv c h g b at)
          (λ t. ground (arith, h.single))

    -- The lock is kept, or handed back at once.
    claimed :
        is_requested_generation c g ≡ true
        → Inv (record c {
          next_lock = suc c.next_lock;
          owned = some (record { generation = g; lock = c.next_lock });
          phase = activating (record { generation = g; lock = c.next_lock });
          runtime = true;
        })
    unfolding total_weight
    claimed t = ground (arith, h.past, h.fits, h.single, h.alone, h.kept, h.activated_owned)

    handed_back :
        (k : Continuation) (activated runtime : Bool)
        → (activated ≡ true → c.activated ≡ true)
        → (runtime ≡ true → c.runtime ≡ true)
        → (k ≡ ends) ⊎ (k ≡ probes g)
        → Inv (record c {
          next_lock = suc c.next_lock;
          owned = none;
          activated = activated;
          runtime = runtime;
          releasing = c.next_lock ∷ c.releasing;
          phase = waiting (record { release = some c.next_lock; after = k });
        })
    unfolding total_weight
    handed_back k activated runtime a r e = ground (
      arith, h.past, h.fits, h.last, h.single, h.alone, h.kept, h.activated_owned, h.runtime_owned,
    )

    granted-Inv : (refreshed : Bool) → Inv (acquisition_ends c (granted refreshed))
    unfolding acquisition_ends give_up
    granted-Inv refreshed = elim (Bool-cases (is_requested_generation c g)) [
      | inl t ↦
          ground
            (arith, claimed t, handed_back (probes g) false false (λ e. cc) (λ e. cc) (inr refl))
      | inr f ↦
          ground
            (arith, h.fits, handed_back ends c.activated c.runtime (λ e. e) (λ e. e) (inl refl))
    ]

    acquisition_ends_acquiring : (outcome : Acquisition) → Inv (acquisition_ends c outcome)
    unfolding acquisition_ends
    acquisition_ends_acquiring (no_lock s) = ground (arith, unclaimed s)
    acquisition_ends_acquiring (throws s) = ground (arith, unclaimed s)
    acquisition_ends_acquiring (granted refreshed) = granted-Inv refreshed

  module _ (o : OwnedLock) (at : c.phase ≡ activating o) where
    given_up : Inv (give_up (record c { runtime = true }) o)
    unfolding give_up total_weight
    given_up = ground (
      arith, h.past, h.fits, h.last, h.owned_last, h.single, h.alone, h.kept, h.known, h.awaited,
      h.owned_live, h.probe_live,
    )

    confirmed :
        is_current c o.generation o.lock ≡ true
        → Inv (record c { runtime = true; activated = true; phase = idle })
    unfolding total_weight
    confirmed t = ground (
      arith, h.past, h.fits, h.owned_last, h.single, h.alone, h.kept, h.known, h.awaited,
      h.owned_live, h.probe_live,
    )

    cancelled :
        is_current c o.generation o.lock ≡ false
        → Inv (record c {
          runtime = false;
          phase = waiting (record { release = none; after = ends });
        })
    unfolding total_weight
    cancelled f = ground (
      arith, h.past, h.fits, h.last, h.single, h.alone, h.kept, h.known, h.awaited, h.owned_live,
      h.probe_live, h.activated_owned,
    )

    activation_ends_activating : (outcome : Activation) → Inv (activation_ends c outcome)
    unfolding activation_ends
    activation_ends_activating fails = ground (arith, given_up)
    activation_ends_activating (activates refreshed) =
        elim (Bool-cases (is_current c o.generation o.lock)) [
          | inl t ↦ ground (arith, given_up, confirmed t)
          | inr f ↦ ground (arith, h.fits, h.owned_live, cancelled f)
        ]

  pub acquisition_ends-Inv : (outcome : Acquisition) → Inv (acquisition_ends c outcome)
  unfolding acquisition_ends
  acquisition_ends-Inv outcome = by_phase c.phase refl
    where
      by_phase : (p : Phase) → c.phase ≡ p → Inv (acquisition_ends c outcome)
      by_phase (acquiring g run) e = acquisition_ends_acquiring g run e outcome
      by_phase idle e = ground arith
      by_phase (waiting x) e = ground arith
      by_phase (activating o) e = ground arith

  pub activation_ends-Inv : (outcome : Activation) → Inv (activation_ends c outcome)
  unfolding activation_ends
  activation_ends-Inv outcome = by_phase c.phase refl
    where
      by_phase : (p : Phase) → c.phase ≡ p → Inv (activation_ends c outcome)
      by_phase (activating o) e = activation_ends_activating o e outcome
      by_phase idle e = ground arith
      by_phase (waiting x) e = ground arith
      by_phase (acquiring g run) e = ground arith

  -- The callback of the pending probe enqueues an attempt.
  module _ (p : PendingProbe) (at : c.probe ≡ some p)
      (t : is_requested_generation c p.generation ≡ true) where
    abbrev attempt : Operation
    attempt = record { release = none; after = attempts p.generation true }

    alone : total_weight (runs c) c.generation (pipeline c.phase c.queue) ≡ 0
    alone = ground (arith, h.single)

    moved :
        total_weight (runs c) c.generation (pipeline c.phase (c.queue ++ attempt ∷ []))
        ≡ total_weight (runs c) c.generation (pipeline c.phase c.queue) + 1
    unfolding total_weight
    moved = rw (pipeline-append c.phase c.queue attempt) (
        ground (
          arith,
          total_weight-append (runs c) c.generation (pipeline c.phase c.queue) (attempt ∷ []),
        ))

    probed : Inv (record c { probe = none; queue = c.queue ++ attempt ∷ [] })
    probed = record {
      past =
          rw (pipeline-append c.phase c.queue attempt)
            (ArePast-append c.generation (pipeline c.phase c.queue) attempt h.past (ground arith));
      fits = ground (arith, h.fits, h.single);
      owned_live = h.owned_live;
      probe_live = tt;
      last =
          rw (pipeline-append c.phase c.queue attempt)
            (append-LiveLast (runs c) c.generation (pipeline c.phase c.queue) attempt alone);
      owned_last = ground (arith, h.single);
      single = ground (arith, h.single, alone, moved);
      alone = h.alone;
      known = h.known;
      awaited = λ l i. rw (pipeline-append c.phase c.queue attempt) (
          Waits-append (runs c) c.generation l (pipeline c.phase c.queue) (attempt ∷ [])
            (h.awaited l i));
      kept = h.kept;
      activated_owned = h.activated_owned;
      runtime_owned = h.runtime_owned;
    }

  dropped : Inv (record c { probe = none })
  dropped = record {
    past = h.past;
    fits = ground (arith, h.fits);
    owned_live = h.owned_live;
    probe_live = tt;
    last = h.last;
    owned_last = h.owned_last;
    single = ground (arith, h.single);
    alone = h.alone;
    known = h.known;
    awaited = h.awaited;
    kept = h.kept;
    activated_owned = h.activated_owned;
    runtime_owned = h.runtime_owned;
  }

  pub probe_fires-Inv : (id : ℕ) → Inv (probe_fires c id)
  unfolding probe_fires
  probe_fires-Inv id = by_probe c.probe refl
    where
      by_probe : (p : Option PendingProbe) → c.probe ≡ p → Inv (probe_fires c id)
      by_probe none e = ground arith
      by_probe (some p) e = ground (arith, dropped, probed p e)

-- ===== src/Sync/Coordinator/Preserved.antt =====
-- src/sync/backgroundCoordinator.ts: every step keeps the invariant.
use cursor_setting_sync.Base.{
  ℕ, suc, ◌≤◌, ◌≡◌, refl, inl, inr, Bool, true, false, ◌||◌, none, List, [], ◌∷◌, if◌then◌else◌,
  arith, length, In, Bool-cases, if_keeps, length-filter-le, In-filter, filter, nat_eq, ◌!=◌,
}
use cursor_setting_sync.Base.Sets.{has, has-In}
use cursor_setting_sync.Sync.Coordinator.{
  start, stand_down, validate_ownership, begin, resume, continue, settled, schedule_probe,
  release_settles,
}
use cursor_setting_sync.Sync.CoordinatorState.{
  Continuation, Operation, Phase, idle, waiting, acquiring, activating, Coordinator, runs,
  is_requested_generation, attempts, probes, releases_again, ends, active,
}
use cursor_setting_sync.Sync.Coordinator.Pipeline.{total_weight, Waits}
use cursor_setting_sync.Sync.Coordinator.Invariant.{Inv, stakes}
use cursor_setting_sync.Sync.Coordinator.HandOver.{hand_over-Inv}

pub start-Inv : (c : Coordinator) (b : Bool) → Inv c → Inv (start c b)
unfolding start
start-Inv c b h =
    if_keeps (λ r. Inv r) c.disposed (λ _. h)
      (λ _. hand_over-Inv c h true c.disposed (attempts (suc c.generation) b) (omega arith))

pub stand_down-Inv : (c : Coordinator) (b : Bool) → Inv c → Inv (stand_down c b)
unfolding stand_down
stand_down-Inv c b h = hand_over-Inv c h false (c.disposed || b) releases_again tt

pub validate_ownership-Inv : (c : Coordinator) (b : Bool) → Inv c → Inv (validate_ownership c b).0
unfolding validate_ownership
validate_ownership-Inv c true h = ground arith
validate_ownership-Inv c false h = elim (Bool-cases (active c)) [
  | inl t ↦
      rw t (hand_over-Inv c h c.should_run c.disposed (probes (suc c.generation)) (omega arith))
  | inr f ↦ rw f h
]

pub begin-Inv : (c : Coordinator) → Inv c → Inv (begin c)
unfolding begin
begin-Inv c h = ground (arith, h.past, h.single, h.awaited)

pub schedule_probe-Inv :
    (c : Coordinator) (g : ℕ) (b : Bool)
    → Inv c
    → (is_requested_generation c g ≡ true → stakes c ≡ 0)
    → Inv (schedule_probe c g b)
unfolding schedule_probe
schedule_probe-Inv c g b h none_else = ground (
  arith, h.past, h.fits, h.owned_live, h.single, h.alone, h.kept, h.known, h.awaited,
  h.activated_owned, h.runtime_owned,
)

none_In : (ls : List ℕ) → ((l : ℕ) → ¬ In l ls) → ls ≡ []
none_In [] h = refl
none_In (x ∷ ls) h = absurd (h x (inl refl))

-- The running operation is over.
module _ (c : Coordinator) (h : Inv c) where
  waiting-Inv :
      (x : Operation)
      → c.phase ≡ waiting x
      → settled c x.release ≡ true
      → Inv (record c { phase = idle })
  unfolding total_weight
  waiting-Inv x e s = record {
    past = ground (arith, h.past);
    fits = tt;
    owned_live = h.owned_live;
    probe_live = h.probe_live;
    last = ground (arith, h.last);
    owned_last = ground (arith, h.owned_last);
    single = ground (arith, h.single);
    alone = h.alone;
    known = h.known;
    awaited = λ l i. ground (arith, h.awaited l, has-In l c.releasing);
    kept = h.kept;
    activated_owned = ground (arith, h.activated_owned);
    runtime_owned = ground (arith, h.runtime_owned);
  }

  pub acquiring-Inv : (g : ℕ) (b : Bool) → c.phase ≡ acquiring g b → Inv (record c { phase = idle })
  acquiring-Inv g b e = record {
    past = ground (arith, h.past);
    fits = tt;
    owned_live = h.owned_live;
    probe_live = h.probe_live;
    last = ground (arith, h.last);
    owned_last = ground (arith, h.owned_last);
    single = ground (arith, h.single);
    alone = h.alone;
    known = h.known;
    awaited = λ l i. ground (arith, h.awaited l);
    kept = h.kept;
    activated_owned = ground (arith, h.activated_owned);
    runtime_owned = ground (arith, h.runtime_owned);
  }

  continue-Inv :
      (x : Operation) (b : Bool)
      → c.phase ≡ waiting x
      → settled c x.release ≡ true
      → Inv (continue c x.after b)
  unfolding continue total_weight
  continue-Inv x b e s = by_continuation x.after refl
    where
      alone : c.owned ≡ none
      alone = ground (arith, h.owned_last)

      again : (l : ℕ) → In l c.releasing → Waits (runs c) c.generation l c.queue
      again l i = ground (arith, h.awaited l, has-In l c.releasing)

      attempted :
          (g : ℕ) (run : Bool)
          → x.after ≡ attempts g run
          → is_requested_generation c g ≡ true
          → Inv (record c { phase = acquiring g run })
      attempted g run q t =
          let none_left =
            none_In c.releasing (λ l i. ground (arith, h.awaited l, has-In l c.releasing)) in
          ground
            (arith, h.past, h.last, h.owned_live, h.single, h.alone, h.kept, h.known, h.awaited)

      by_continuation : (k : Continuation) → x.after ≡ k → Inv (continue c k b)
      by_continuation (attempts g run) q =
          if_keeps (λ r. Inv r) (is_requested_generation c g) (λ t. attempted g run q t)
            (λ _. waiting-Inv x e s)
      by_continuation (probes g) q =
          schedule_probe-Inv (record c { phase = idle }) g b (waiting-Inv x e s)
            (λ t. ground (arith, h.single))
      by_continuation releases_again q =
          ground (arith, h.past, h.last, h.owned_live, h.single, h.alone, h.kept, h.known, again)
      by_continuation ends q = waiting-Inv x e s

last_released :
    (l : ℕ) (ls : List ℕ)
    → length ls ≤ 1
    → has l ls ≡ true
    → (length (filter (λ other. other != l) ls) ≡ 0) × (length ls ≡ 1)
unfolding filter has
last_released l [] h e = absurd (cc)
last_released l (x ∷ []) h e = ground arith
last_released l (x ∷ y ∷ ls) h e = absurd (omega arith)

pub release_settles-Inv : (c : Coordinator) (l : ℕ) → Inv c → Inv (release_settles c l)
unfolding release_settles
release_settles-Inv c l h =
    if_keeps (λ r. Inv r) (has l c.releasing)
      (λ t. record {
        past = h.past;
        fits = ground (arith, h.fits, has-In l c.releasing);
        owned_live = h.owned_live;
        probe_live = h.probe_live;
        last = h.last;
        owned_last = h.owned_last;
        single = h.single;
        alone = omega (arith, h.alone, length-filter-le (λ other. other != l) c.releasing);
        known = λ k i. h.known k ((In-filter (λ other. other != l) k c.releasing).0 i).0;
        awaited = λ k i. h.awaited k ((In-filter (λ other. other != l) k c.releasing).0 i).0;
        kept = ground (arith, h.kept, h.alone, last_released l c.releasing);
        activated_owned = h.activated_owned;
        runtime_owned = h.runtime_owned;
      })
      (λ _. h)

resume_waiting :
    (c : Coordinator) (b : Bool) (x : Operation)
    → c.phase ≡ waiting x
    → resume c b ≡ (if settled c x.release then continue c x.after b else c)
unfolding resume
resume_waiting c b x e = ground arith

abbrev IsWaiting : Phase → Type 0
IsWaiting (waiting x) = Unit
IsWaiting idle = ⊥
IsWaiting (acquiring g run) = ⊥
IsWaiting (activating o) = ⊥

resume_elsewhere : (c : Coordinator) (b : Bool) → ¬ IsWaiting c.phase → resume c b ≡ c
unfolding resume
resume_elsewhere c b n = ground arith

pub resume-Inv : (c : Coordinator) (b : Bool) → Inv c → Inv (resume c b)
resume-Inv c b h = by_phase c.phase refl
  where
    by_phase : (p : Phase) → c.phase ≡ p → Inv (resume c b)
    by_phase (waiting x) e =
        rw (resume_waiting c b x e)
          (if_keeps (λ r. Inv r) (settled c x.release) (λ t. continue-Inv c h x b e t) (λ _. h))
    by_phase idle e = rw (resume_elsewhere c b (ground arith)) h
    by_phase (acquiring g run) e = rw (resume_elsewhere c b (ground arith)) h
    by_phase (activating o) e = rw (resume_elsewhere c b (ground arith)) h

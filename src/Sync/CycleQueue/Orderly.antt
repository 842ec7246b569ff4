-- ===== src/Sync/CycleQueue/Orderly.antt =====
-- src/sync/cycleQueue.ts: waiters and the scopes that they wait for.
use cursor_setting_sync.Base.{
  ℕ, ◌-◌, ◌<◌, ◌≡◌, refl, inl, inr, Bool, false, Option, none, some, List, [], ◌∷◌, ◌++◌, arith,
  ltb, length, length-append, Bool-cases,
}
use cursor_setting_sync.Base.Sets.{has, add}
use cursor_setting_sync.Sync.Scopes.{SyncScope, scope_eq, merge_sync_scopes}
use cursor_setting_sync.Sync.CycleQueue.{
  Queue, Phase, idle, running, maintaining, ending, succeeded, failed, settle, claim, strand,
  start_drain, push_waiter, with_request, with_automatic, with_scope, request, request_automatic,
  request_polling, close, enter_floor, exit_floor, cycle_ends, maintenance_ends, drain_ends, Action,
  requests, automatic, polling, closes, enters_floor, exits_floor, drain_is_over, cycle_is_over,
  maintenance_is_over, step, run, draining,
}
use cursor_setting_sync.Sync.CycleQueue.Steps.{
  request_keeps, request_automatic_keeps, cycle_ends-ok, cycle_ends-error, cycle_ends_idle,
  cycle_ends_maintaining, cycle_ends_ending, maintenance_ends_running, maintenance_ends_idle,
  maintenance_ends_ending, maintenance_ends-more, maintenance_ends-done, maintenance_ends-error,
}

length-add : (scope : SyncScope) (scopes : List SyncScope) → 0 < length (add scope scopes)
unfolding add has
length-add scope [] = ground arith
length-add scope (x ∷ xs) = ground (arith, length-append xs (scope ∷ []))

-- Nobody waits without a scope that waits too.
abbrev pub IsOrderly : Queue → Type 0
IsOrderly q = ltb 0 (length q.pending_scopes) ≡ false → q.waiters ≡ []

claim-IsOrderly : (q : Queue) → IsOrderly q → IsOrderly (claim q)
unfolding claim
claim-IsOrderly q h = elim (Bool-cases (ltb 0 (length q.pending_scopes))) [
  | inl t ↦ rw t (λ _. refl)
  | inr f ↦ rw f (λ _. h f)
]

strand-IsOrderly : (q : Queue) (cause : Option ℕ) → IsOrderly (strand q cause)
unfolding strand
strand-IsOrderly q cause = λ _. refl

start_drain-IsOrderly : (q : Queue) → IsOrderly q → IsOrderly (start_drain q)
unfolding start_drain
start_drain-IsOrderly q h = elim (Bool-cases (draining q.phase)) [
  | inl t ↦ rw t h
  | inr f ↦ rw f (claim-IsOrderly q h)
]

added-IsOrderly :
    (q : Queue) (scope : SyncScope) (scopes : List SyncScope)
    → q.pending_scopes ≡ add scope scopes
    → IsOrderly q
added-IsOrderly q scope scopes e = λ h. absurd (ground (arith, length-add scope scopes, e, h))

request-IsOrderly :
    (q : Queue) (manual : Bool) (scope : SyncScope)
    → IsOrderly q
    → IsOrderly (request q manual scope).0
request-IsOrderly q manual scope h =
    request_keeps (λ r. IsOrderly r) start_drain-IsOrderly q h scope manual
      (unfold push_waiter in
        added-IsOrderly (with_request q manual scope) scope q.pending_scopes refl)

request_automatic-IsOrderly :
    (q : Queue) (scope : SyncScope) → IsOrderly q → IsOrderly (request_automatic q scope).0
request_automatic-IsOrderly q scope h =
    request_automatic_keeps (λ r. IsOrderly r) start_drain-IsOrderly q h scope h
      (unfold push_waiter in added-IsOrderly (with_automatic q scope) scope q.pending_scopes refl)
      (added-IsOrderly (with_scope q scope) scope q.pending_scopes refl)

request_polling-IsOrderly :
    (q : Queue) (scope : SyncScope) → IsOrderly q → IsOrderly (request_polling q scope).0
unfolding request_polling
request_polling-IsOrderly q scope h =
    ground (arith, request_automatic-IsOrderly q scope h, request-IsOrderly q false scope h)

exit_floor-IsOrderly : (q : Queue) → IsOrderly q → IsOrderly (exit_floor q)
unfolding exit_floor
exit_floor-IsOrderly q h = ground (
  arith,
  request_automatic-IsOrderly (record q { floor = q.floor - 1; deferred_scopes = [] })
      (merge_sync_scopes q.deferred_scopes) h,
)

cycle_ends-IsOrderly : (q : Queue) (error : Option ℕ) → IsOrderly q → IsOrderly (cycle_ends q error)
cycle_ends-IsOrderly q error h = by_phase q.phase refl error
  where
    by_phase : (p : Phase) → q.phase ≡ p → (error : Option ℕ) → IsOrderly (cycle_ends q error)
    by_phase idle e error = rw (cycle_ends_idle q error e) h
    by_phase maintaining e error = rw (cycle_ends_maintaining q error e) h
    by_phase ending e error = rw (cycle_ends_ending q error e) h
    by_phase (running scope manual waiters) e none =
        rw (cycle_ends-ok q scope manual waiters e)
          (claim-IsOrderly (record q { settled = q.settled ++ settle waiters succeeded }) h)
    by_phase (running scope manual waiters) e (some c) =
        rw (cycle_ends-error q scope manual waiters e c) (
          strand-IsOrderly (record q { settled = q.settled ++ settle waiters (failed c) }) (some c))

maintenance_ends-IsOrderly :
    (q : Queue) (error : Option ℕ) → IsOrderly q → IsOrderly (maintenance_ends q error)
maintenance_ends-IsOrderly q error h = by_phase q.phase refl error
  where
    by_phase : (p : Phase) → q.phase ≡ p → (error : Option ℕ) → IsOrderly (maintenance_ends q error)
    by_phase idle e error = rw (maintenance_ends_idle q error e) h
    by_phase (running scope manual waiters) e error =
        rw (maintenance_ends_running q scope manual waiters e error) h
    by_phase ending e error = rw (maintenance_ends_ending q error e) h
    by_phase maintaining e none = elim (Bool-cases (ltb 0 (length q.pending_scopes))) [
      | inl t ↦ rw (maintenance_ends-more q e t) (claim-IsOrderly q h)
      | inr f ↦ rw (maintenance_ends-done q e f) (strand-IsOrderly q none)
    ]
    by_phase maintaining e (some c) = rw (maintenance_ends-error q c e) (strand-IsOrderly q none)

pub step-IsOrderly : (q : Queue) (a : Action) → IsOrderly q → IsOrderly (step q a)
unfolding step
step-IsOrderly q (requests manual scope) h = request-IsOrderly q manual scope h
step-IsOrderly q (automatic scope) h = request_automatic-IsOrderly q scope h
step-IsOrderly q (polling scope) h = request_polling-IsOrderly q scope h
step-IsOrderly q closes h = unfold close in h
step-IsOrderly q enters_floor h = unfold enter_floor in h
step-IsOrderly q exits_floor h = exit_floor-IsOrderly q h
step-IsOrderly q drain_is_over h = unfold drain_ends in ground arith
step-IsOrderly q (cycle_is_over error) h = cycle_ends-IsOrderly q error h
step-IsOrderly q (maintenance_is_over error) h = maintenance_ends-IsOrderly q error h

-- If nobody waits while no scope is pending, that is so after any actions too.
pub run-IsOrderly : (q : Queue) (actions : List Action) → IsOrderly q → IsOrderly (run q actions)
unfolding run
run-IsOrderly q [] h = h
run-IsOrderly q (a ∷ rest) h = run-IsOrderly (step q a) rest (step-IsOrderly q a h)

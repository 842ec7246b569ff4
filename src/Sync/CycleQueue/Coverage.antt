-- ===== src/Sync/CycleQueue/Coverage.antt =====
-- src/sync/cycleQueue.ts: what becomes of a scope that was asked for.
use cursor_setting_sync.Base.{
  ℕ, suc, ◌-◌, ◌<◌, ◌≡◌, refl, ap, ◌∙◌, ◌⊎◌, inl, inr, Bool, true, false, ◌||◌, Option, some, List,
  [], ◌∷◌, ◌++◌, arith, ltb, length, In, Bool-cases, Option-cases,
}
use cursor_setting_sync.Base.Sets.{add, In-add}
use cursor_setting_sync.Sync.Scopes.{
  SyncScope, scope_eq, merge_sync_scopes, sync_scope_covers, merge-covers,
}
use cursor_setting_sync.Sync.CycleQueue.{
  Queue, Phase, idle, running, maintaining, ending, claim, start_drain, push_waiter, with_request,
  with_automatic, with_scope, request, request_automatic, exit_floor, drain_ends, draining, run,
  step, requests, drain_is_over, cycle_is_over, maintenance_is_over,
}
use cursor_setting_sync.Sync.CycleQueue.Steps.{
  request_open, request_automatic_first, request_automatic_shared, cycle_ends_idle,
  maintenance_ends_idle,
}

-- The drain is in its loop, and looks at what is pending again before it leaves it.
abbrev pub in_loop : Phase → Bool
in_loop idle = false
in_loop (running scope manual carried) = true
in_loop maintaining = true
in_loop ending = false

-- A scope is seen to: it is pending and the drain is in its loop, or the running cycle covers what
-- was merged from it.
abbrev pub SeenTo : SyncScope → Queue → Type 0
SeenTo scope q =
    (In scope q.pending_scopes × (in_loop q.phase ≡ true))
    ⊎ ((cover : SyncScope) × (manual : Bool) × (waiters : List ℕ) × (q.phase
          ≡ running cover manual waiters)
        × (sync_scope_covers cover scope ≡ true))

In-length : (s : SyncScope) (xs : List SyncScope) → In s xs → 0 < length xs
In-length s [] i = absurd i
In-length s (x ∷ xs) i = omega arith

added : (s : SyncScope) (xs : List SyncScope) → In s (add s xs)
added s xs = (In-add s s xs).1 (inr refl)

draining-in_loop : (p : Phase) → draining p ≡ true → ¬ (p ≡ ending) → in_loop p ≡ true
draining-in_loop idle t n = absurd (cc)
draining-in_loop (running scope manual carried) t n = refl
draining-in_loop maintaining t n = refl
draining-in_loop ending t n = absurd (n refl)

start_drain-SeenTo :
    (q : Queue) (scope : SyncScope)
    → ¬ (q.phase ≡ ending)
    → In scope q.pending_scopes
    → SeenTo scope (start_drain q)
unfolding start_drain claim
start_drain-SeenTo q scope alive i = elim (Bool-cases (draining q.phase)) [
  | inl t ↦ rw (t, start_drain) (inl (i, draining-in_loop q.phase t alive))
  | inr f ↦
      let some_pending : ltb 0 (length q.pending_scopes) ≡ true =
        ground (arith, In-length scope q.pending_scopes i) in
      rw (f, some_pending, start_drain, claim)
        (inr (
          merge_sync_scopes q.pending_scopes,
          q.pending_manual,
          q.waiters,
          refl,
          merge-covers q.pending_scopes scope i,
        ))
]

-- A request of an open queue, manual or not, is seen to at once, unless the drain has ended and
-- `drain` is not yet null.
pub request-SeenTo :
    (q : Queue) (manual : Bool) (scope : SyncScope)
    → q.closed ≡ false
    → ¬ (q.phase ≡ ending)
    → SeenTo scope (request q manual scope).0
request-SeenTo q manual scope h alive = rw (request_open q manual scope h) (
    start_drain-SeenTo (with_request q manual scope) scope (unfold push_waiter in alive)
      (unfold push_waiter in added scope q.pending_scopes))

pub request_automatic-SeenTo :
    (q : Queue) (scope : SyncScope)
    → q.closed ≡ false
    → ltb 0 q.floor ≡ false
    → ¬ (q.phase ≡ ending)
    → SeenTo scope (request_automatic q scope).0
request_automatic-SeenTo q scope h f alive = elim (Option-cases q.pending_automatic_waiter) [
  | inl n ↦ rw (request_automatic_first q scope h f n) (
      start_drain-SeenTo (with_automatic q scope) scope (unfold push_waiter in alive)
        (unfold push_waiter in added scope q.pending_scopes))
  | inr (shared, e) ↦
      rw (request_automatic_shared q scope h shared f e)
        (start_drain-SeenTo (with_scope q scope) scope alive (added scope q.pending_scopes))
]

exit_floor-last :
    (q : Queue)
    → q.closed ≡ false
    → q.floor ≡ 1
    → ltb 0 (length q.deferred_scopes) ≡ true
    → exit_floor q
      ≡ (request_automatic
          (record q { floor = q.floor - 1; deferred_scopes = [] })
          (merge_sync_scopes q.deferred_scopes)).0
unfolding exit_floor
exit_floor-last q h f d = ground arith

-- When the last command of an open queue lets go of the floor, and the queue is not between the end
-- of a drain and the `finally` that sets `drain` to null, then each scope that was held back is covered
-- by a scope that is then seen to: it is pending in front of a drain that is in its loop, or a
-- running cycle covers it.
pub exit_floor-SeenTo :
    (q : Queue) (scope : SyncScope)
    → q.closed ≡ false
    → q.floor ≡ 1
    → ¬ (q.phase ≡ ending)
    → In scope q.deferred_scopes
    → (merged : SyncScope) × (sync_scope_covers merged scope ≡ true) × SeenTo merged (exit_floor q)
exit_floor-SeenTo q scope h f alive i = (
  merge_sync_scopes q.deferred_scopes,
  merge-covers q.deferred_scopes scope i,
  rw (exit_floor-last q h f (ground (arith, In-length scope q.deferred_scopes i))) (
      request_automatic-SeenTo (record q { floor = q.floor - 1; deferred_scopes = [] })
        (merge_sync_scopes q.deferred_scopes) h (ground arith) alive),
)

-- A request that comes while the drain has ended but `drain` is not yet null gets a promise that no
-- end of a cycle, of the maintenance or of the drain settles: once the drain is over the queue is
-- idle, the request waits in it with its scope, and none of these changes the queue.
pub late_request_lies :
    (q : Queue) (manual : Bool) (scope : SyncScope)
    → q.closed ≡ false
    → q.phase ≡ ending
    → (left : Queue) × (run q (requests manual scope ∷ drain_is_over ∷ []) ≡ left)
      × ((request q manual scope).1 ≡ some q.next_waiter)
      × (left.waiters ≡ q.waiters ++ q.next_waiter ∷ [])
      × In scope left.pending_scopes
      × ((error : Option ℕ) → step left (cycle_is_over error) ≡ left)
      × ((error : Option ℕ) → step left (maintenance_is_over error) ≡ left)
      × (step left drain_is_over ≡ left)
unfolding run step
late_request_lies q manual scope h e = (
  left,
  steps,
  ap (λ (r : Queue × Option ℕ). r.1) (request_open q manual scope h),
  refl,
  added scope q.pending_scopes,
  (λ error. cycle_ends_idle left error refl),
  (λ error. maintenance_ends_idle left error refl),
  (unfold drain_ends in refl),
)
  where
    asked : Queue
    asked = record q {
      pending_scopes = add scope q.pending_scopes;
      pending_manual = q.pending_manual || manual;
      waiters = q.waiters ++ q.next_waiter ∷ [];
      next_waiter = suc q.next_waiter;
    }

    left : Queue
    left = record asked { phase = idle }

    not_started : start_drain (with_request q manual scope) ≡ asked
    not_started = unfold start_drain push_waiter in ground arith

    at_end : drain_ends asked ≡ left
    at_end = unfold drain_ends in ground arith

    steps : drain_ends (request q manual scope).0 ≡ left
    steps =
        ap (λ (r : Queue × Option ℕ). drain_ends r.0) (request_open q manual scope h)
        ∙ ap drain_ends not_started
        ∙ at_end

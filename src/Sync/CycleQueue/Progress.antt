-- ===== src/Sync/CycleQueue/Progress.antt =====
-- src/sync/cycleQueue.ts: how far a promise is from its settlement.
use cursor_setting_sync.Base.{
  ℕ, ◌+◌, ◌-◌, ◌≤◌, ◌<◌, ◌≡◌, refl, ◌⊎◌, inl, inr, Bool, true, false, Option, none, some, List, [],
  ◌++◌, arith, ltb, length, count, Bool-cases, if◌then◌else◌,
}
use cursor_setting_sync.Sync.Scopes.{SyncScope, scope_eq, merge_sync_scopes}
use cursor_setting_sync.Sync.CycleQueue.{
  Queue, Phase, idle, running, maintaining, ending, Settlement, succeeded, failed, stranded, settle,
  claim, strand, start_drain, push_waiter, request, request_automatic, request_polling, close,
  enter_floor, exit_floor, cycle_ends, maintenance_ends, drain_ends, Action, requests, automatic,
  polling, closes, enters_floor, exits_floor, drain_is_over, cycle_is_over, maintenance_is_over,
  step, run, empty,
}
use cursor_setting_sync.Sync.CycleQueue.Promises.{carried, ids, places, count-settle, run-places}
use cursor_setting_sync.Sync.CycleQueue.Steps.{
  request_keeps, request_automatic_keeps, cycle_ends-ok, cycle_ends-error, cycle_ends_idle,
  cycle_ends_maintaining, cycle_ends_ending, maintenance_ends-more, maintenance_ends-done,
  maintenance_ends-error,
}
use cursor_setting_sync.Sync.CycleQueue.Orderly.{IsOrderly, run-IsOrderly}

-- How far a promise is from its settlement: it waits, a cycle carries it, or it is settled.
pub rank : ℕ → Queue → ℕ
rank id q =
    if ltb 0 (count id (ids q.settled))
    then 0
    else if ltb 0 (count id (carried q.phase))
    then 1
    else 2

rank-claim :
    (id : ℕ) (q : Queue)
    → IsOrderly q
    → 0 < count id q.waiters + count id (ids q.settled)
    → rank id (claim q) ≤ 1
unfolding rank claim
rank-claim id q o p = elim (Bool-cases (ltb 0 (length q.pending_scopes))) [
  | inl t ↦ ground arith
  | inr f ↦ let n = o f in unfold count in ground (arith, n)
]

settled-claim : (id : ℕ) (q : Queue) → 0 < count id (ids q.settled) → rank id (claim q) ≡ 0
unfolding rank claim
settled-claim id q h = ground arith

rank-strand :
    (id : ℕ) (q : Queue) (cause : Option ℕ)
    → 0 < count id q.waiters + count id (ids q.settled)
    → rank id (strand q cause) ≡ 0
unfolding rank strand
rank-strand id q cause p = ground (arith, count-settle id q.settled q.waiters (stranded cause))

-- The end of a cycle brings a promise that is not settled one rank down.
lt_ranked :
    (id : ℕ) (q : Queue) (scope : SyncScope) (manual : Bool) (waiters : List ℕ)
    (outcome : Settlement)
    → q.phase ≡ running scope manual waiters
    → IsOrderly q
    → 0 < places id q
    → 0 < rank id q
    → let settled : Queue = record q { settled = q.settled ++ settle waiters outcome } in
      (rank id (claim settled) < rank id q)
      × ((cause : Option ℕ) → rank id (strand settled cause) < rank id q)
unfolding rank
lt_ranked id q scope manual waiters outcome e o p r = (
  elim (Bool-cases (ltb 0 (count id waiters))) [
    | inl t ↦ let z = settled-claim id after (ground (arith, t, new)) in ground (arith, z)
    | inr f ↦ let z = rank-claim id after o (ground (arith, f, new)) in ground (arith, f, z)
  ],
  λ cause. let z = rank-strand id after cause (ground (arith, new)) in ground (arith, z),
)
  where
    after : Queue
    after = record q { settled = q.settled ++ settle waiters outcome }

    new : count id (ids after.settled) ≡ count id (ids q.settled) + count id waiters
    new = count-settle id q.settled waiters outcome

-- The end that the drain awaits.
pub data Awaits (q : Queue) : Action → Type 0 where
  awaits_cycle :
      (scope : SyncScope) (manual : Bool) (waiters : List ℕ) (error : Option ℕ)
      → q.phase ≡ running scope manual waiters
      → Awaits q (cycle_is_over error)
  awaits_maintenance :
      (error : Option ℕ) → q.phase ≡ maintaining → Awaits q (maintenance_is_over error)

end-rank :
    (id : ℕ) (q : Queue) (a : Action)
    → IsOrderly q
    → 0 < places id q
    → 0 < rank id q
    → Awaits q a
    → rank id (step q a) < rank id q
end-rank id q a o p r (awaits_cycle scope manual waiters none e) =
    unfold step in
    rw (cycle_ends-ok q scope manual waiters e)
      (lt_ranked id q scope manual waiters succeeded e o p r).0
end-rank id q a o p r (awaits_cycle scope manual waiters (some c) e) =
    unfold step in
    rw (cycle_ends-error q scope manual waiters e c)
      ((lt_ranked id q scope manual waiters (failed c) e o p r).1 (some c))
end-rank id q a o p r (awaits_maintenance none e) =
    unfold step in by_pending (Bool-cases (ltb 0 (length q.pending_scopes)))
  where
    by_pending :
        (ltb 0 (length q.pending_scopes) ≡ true) ⊎ (ltb 0 (length q.pending_scopes) ≡ false)
        → rank id (maintenance_ends q none) < rank id q
    by_pending (inl t) = rw (maintenance_ends-more q e t) (
        let z = rank-claim id q o (unfold count in ground arith) in
        unfold rank count in ground (arith, z))
    by_pending (inr f) =
        rw (maintenance_ends-done q e f)
          (let z = rank-strand id q none (unfold count in ground arith) in rw z r)
end-rank id q a o p r (awaits_maintenance (some c) e) =
    unfold step in
    rw (maintenance_ends-error q c e)
      (let z = rank-strand id q none (unfold count in ground arith) in rw z r)

-- Nothing that is settled or carried by a cycle goes back.
record Kept (id : ℕ) (q r : Queue) : Type 0 where
  settled : count id (ids q.settled) ≤ count id (ids r.settled)
  served :
      count id (ids q.settled) + count id (carried q.phase)
      ≤ count id (ids r.settled) + count id (carried r.phase)

Kept-self : (id : ℕ) (q : Queue) → Kept id q q
Kept-self id q = omega arith

Kept-start_drain : (id : ℕ) (q r : Queue) → Kept id q r → Kept id q (start_drain r)
unfolding start_drain claim count
Kept-start_drain id q r h = ground arith

request-Kept :
    (id : ℕ) (q : Queue) (manual : Bool) (scope : SyncScope) → Kept id q (request q manual scope).0
request-Kept id q manual scope =
    request_keeps (Kept id q) (Kept-start_drain id q) q (Kept-self id q) scope manual
      (unfold push_waiter in omega arith)

request_automatic-Kept :
    (id : ℕ) (q : Queue) (scope : SyncScope) → Kept id q (request_automatic q scope).0
request_automatic-Kept id q scope =
    request_automatic_keeps (Kept id q) (Kept-start_drain id q) q (Kept-self id q) scope
      (omega arith) (unfold push_waiter in omega arith) (omega arith)

request_polling-Kept :
    (id : ℕ) (q : Queue) (scope : SyncScope) → Kept id q (request_polling q scope).0
unfolding request_polling
request_polling-Kept id q scope =
    ground (arith, request_automatic-Kept id q scope, request-Kept id q false scope)

exit_floor-Kept : (id : ℕ) (q : Queue) → Kept id q (exit_floor q)
unfolding exit_floor
exit_floor-Kept id q = ground (
  arith,
  request_automatic-Kept id (record q { floor = q.floor - 1; deferred_scopes = [] })
      (merge_sync_scopes q.deferred_scopes),
)

cycle_ends-Kept : (id : ℕ) (q : Queue) (error : Option ℕ) → Kept id q (cycle_ends q error)
cycle_ends-Kept id q error = by_phase q.phase refl error
  where
    by_phase : (p : Phase) → q.phase ≡ p → (error : Option ℕ) → Kept id q (cycle_ends q error)
    by_phase idle e error = rw (cycle_ends_idle q error e) (Kept-self id q)
    by_phase maintaining e error = rw (cycle_ends_maintaining q error e) (Kept-self id q)
    by_phase ending e error = rw (cycle_ends_ending q error e) (Kept-self id q)
    by_phase (running scope manual waiters) e none =
        rw (cycle_ends-ok q scope manual waiters e)
          (unfold claim in ground (arith, count-settle id q.settled waiters succeeded))
    by_phase (running scope manual waiters) e (some c) =
        rw (cycle_ends-error q scope manual waiters e c) (
          unfold strand in
          ground (
            arith,
            count-settle id q.settled waiters (failed c),
            count-settle id (q.settled ++ settle waiters (failed c)) q.waiters (stranded (some c)),
          ))

maintenance_ends-Kept :
    (id : ℕ) (q : Queue) (error : Option ℕ) → Kept id q (maintenance_ends q error)
unfolding maintenance_ends claim strand count
maintenance_ends-Kept id q none =
    ground (arith, count-settle id q.settled q.waiters (stranded none))
maintenance_ends-Kept id q (some c) =
    ground (arith, count-settle id q.settled q.waiters (stranded none))

step-Kept : (id : ℕ) (q : Queue) (a : Action) → Kept id q (step q a)
unfolding step
step-Kept id q (requests manual scope) = request-Kept id q manual scope
step-Kept id q (automatic scope) = request_automatic-Kept id q scope
step-Kept id q (polling scope) = request_polling-Kept id q scope
step-Kept id q closes = unfold close in omega arith
step-Kept id q enters_floor = unfold enter_floor in omega arith
step-Kept id q exits_floor = exit_floor-Kept id q
step-Kept id q drain_is_over = unfold drain_ends in ground arith
step-Kept id q (cycle_is_over error) = cycle_ends-Kept id q error
step-Kept id q (maintenance_is_over error) = maintenance_ends-Kept id q error

-- In whatever state a new queue has come to, the rank of a promise that it handed out (2 while it
-- waits, 1 while a cycle carries it, 0 once it is settled) does not rise in any step; and while it is
-- not settled, the end of the cycle or of the maintenance that the drain awaits lowers it.
pub run-progress :
    (actions : List Action) (id : ℕ)
    → id < (run empty actions).next_waiter
    → ((a : Action) → rank id (step (run empty actions) a) ≤ rank id (run empty actions))
      × ((a : Action)
          → Awaits (run empty actions) a
          → 0 < rank id (run empty actions)
          → rank id (step (run empty actions) a) < rank id (run empty actions))
run-progress actions id h = (
  λ a. let k = step-Kept id (run empty actions) a in unfold rank in ground (arith, k),
  λ a w r.
      end-rank id (run empty actions) a (run-IsOrderly empty actions (λ _. refl))
        (ground (arith, run-places actions id)) r w,
)

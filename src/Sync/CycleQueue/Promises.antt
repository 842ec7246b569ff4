-- ===== src/Sync/CycleQueue/Promises.antt =====
-- src/sync/cycleQueue.ts: where the promises stand that the queue hands out.
use cursor_setting_sync.Base.{
  ℕ, ◌+◌, ◌-◌, ◌≡◌, refl, inl, inr, Bool, false, Option, none, some, List, [], ◌∷◌, ◌++◌, arith,
  ltb, length, count, count-append, Bool-cases, if◌then◌else◌,
}
use cursor_setting_sync.Sync.Scopes.{SyncScope, merge_sync_scopes}
use cursor_setting_sync.Sync.CycleQueue.{
  Queue, Phase, idle, running, maintaining, ending, Settlement, succeeded, failed, stranded, settle,
  claim, strand, start_drain, push_waiter, request, request_automatic, request_polling, close,
  enter_floor, exit_floor, cycle_ends, maintenance_ends, drain_ends, Action, requests, automatic,
  polling, closes, enters_floor, exits_floor, drain_is_over, cycle_is_over, maintenance_is_over,
  step, run, empty,
}
use cursor_setting_sync.Sync.CycleQueue.Steps.{
  request_keeps, request_automatic_keeps, cycle_ends-ok, cycle_ends-error, cycle_ends_idle,
  cycle_ends_maintaining, cycle_ends_ending, maintenance_ends_running, maintenance_ends_idle,
  maintenance_ends_ending, maintenance_ends-more, maintenance_ends-done, maintenance_ends-error,
}

-- The waiters that the running cycle carries.
abbrev pub carried : Phase → List ℕ
carried idle = []
carried (running scope manual waiters) = waiters
carried maintaining = []
carried ending = []

abbrev pub ids : List (ℕ × Settlement) → List ℕ
ids [] = []
ids ((id, outcome) ∷ rest) = id ∷ ids rest

-- In how many places a promise stands: waiting, carried by the running cycle, settled.
abbrev pub places : ℕ → Queue → ℕ
places id q = count id q.waiters + count id (carried q.phase) + count id (ids q.settled)

pub count-settle :
    (id : ℕ) (settled : List (ℕ × Settlement)) (waiters : List ℕ) (outcome : Settlement)
    → count id (ids (settled ++ settle waiters outcome)) ≡ count id (ids settled) + count id waiters
unfolding count
count-settle id [] [] o = omega arith
count-settle id [] (w ∷ ws) o = ground (arith, count-settle id [] ws o)
count-settle id ((x, p) ∷ rest) ws o = ground (arith, count-settle id rest ws o)

-- `claim` and `strand` move the waiters; what the phase carried before is theirs to forget.
places-claim :
    (id : ℕ) (q : Queue) → places id (claim q) ≡ count id q.waiters + count id (ids q.settled)
unfolding claim count
places-claim id q = ground arith

places-strand :
    (id : ℕ) (q : Queue) (cause : Option ℕ)
    → places id (strand q cause) ≡ count id q.waiters + count id (ids q.settled)
unfolding strand count
places-strand id q cause = ground (arith, count-settle id q.settled q.waiters (stranded cause))

places-start_drain : (id : ℕ) (q : Queue) → places id (start_drain q) ≡ places id q
unfolding start_drain count
places-start_drain id q = ground (arith, places-claim id q)

-- A promise that was handed out stands in one place, and no other does.
abbrev pub Accounted : ℕ → Queue → Type 0
Accounted id q = places id q ≡ (if ltb id q.next_waiter then 1 else 0)

next_waiter-start_drain : (q : Queue) → (start_drain q).next_waiter ≡ q.next_waiter
unfolding start_drain claim
next_waiter-start_drain q = ground arith

start_drain-Accounted : (id : ℕ) (q : Queue) → Accounted id q → Accounted id (start_drain q)
start_drain-Accounted id q h = ground (arith, places-start_drain id q, next_waiter-start_drain q)

push_waiter-Accounted : (id : ℕ) (q : Queue) → Accounted id q → Accounted id (push_waiter q)
unfolding push_waiter count
push_waiter-Accounted id q h = ground (arith, count-append id q.waiters (q.next_waiter ∷ []))

request-Accounted :
    (id : ℕ) (q : Queue) (manual : Bool) (scope : SyncScope)
    → Accounted id q
    → Accounted id (request q manual scope).0
request-Accounted id q manual scope h =
    request_keeps (Accounted id) (start_drain-Accounted id) q h scope manual
      (push_waiter-Accounted id _ h)

request_automatic-Accounted :
    (id : ℕ) (q : Queue) (scope : SyncScope)
    → Accounted id q
    → Accounted id (request_automatic q scope).0
request_automatic-Accounted id q scope h =
    request_automatic_keeps (Accounted id) (start_drain-Accounted id) q h scope h
      (push_waiter-Accounted id _ h) h

request_polling-Accounted :
    (id : ℕ) (q : Queue) (scope : SyncScope)
    → Accounted id q
    → Accounted id (request_polling q scope).0
unfolding request_polling
request_polling-Accounted id q scope h =
    ground (arith, request_automatic-Accounted id q scope h, request-Accounted id q false scope h)

exit_floor-Accounted : (id : ℕ) (q : Queue) → Accounted id q → Accounted id (exit_floor q)
unfolding exit_floor
exit_floor-Accounted id q h = ground (
  arith,
  request_automatic-Accounted id (record q { floor = q.floor - 1; deferred_scopes = [] })
      (merge_sync_scopes q.deferred_scopes) h,
)

next_waiter-claim : (q : Queue) → (claim q).next_waiter ≡ q.next_waiter
unfolding claim
next_waiter-claim q = ground arith

-- The running cycle ends: its callers are settled, and the rest is claimed or stranded.
after_cycle-Accounted :
    (id : ℕ) (q : Queue) (waiters : List ℕ) (outcome : Settlement)
    → count id q.waiters + count id waiters + count id (ids q.settled)
      ≡ (if ltb id q.next_waiter then 1 else 0)
    → let settled : Queue = record q { settled = q.settled ++ settle waiters outcome } in
      Accounted id (claim settled) × ((cause : Option ℕ) → Accounted id (strand settled cause))
after_cycle-Accounted id q waiters outcome h =
    let settled : Queue = record q { settled = q.settled ++ settle waiters outcome } in
    (
      ground (
        arith,
        places-claim id settled,
        next_waiter-claim settled,
        count-settle id q.settled waiters outcome,
      ),
      λ cause.
          unfold strand in
          ground (arith, places-strand id settled cause, count-settle id q.settled waiters outcome),
    )

cycle_ends-Accounted :
    (id : ℕ) (q : Queue) (error : Option ℕ) → Accounted id q → Accounted id (cycle_ends q error)
cycle_ends-Accounted id q error h = by_phase q.phase refl error
  where
    by_phase : (p : Phase) → q.phase ≡ p → (error : Option ℕ) → Accounted id (cycle_ends q error)
    by_phase idle e error = rw (cycle_ends_idle q error e) h
    by_phase maintaining e error = rw (cycle_ends_maintaining q error e) h
    by_phase ending e error = rw (cycle_ends_ending q error e) h
    by_phase (running scope manual waiters) e none =
        rw (cycle_ends-ok q scope manual waiters e)
          (after_cycle-Accounted id q waiters succeeded (ground arith)).0
    by_phase (running scope manual waiters) e (some c) =
        rw (cycle_ends-error q scope manual waiters e c)
          ((after_cycle-Accounted id q waiters (failed c) (ground arith)).1 (some c))

maintenance_ends-Accounted :
    (id : ℕ) (q : Queue) (error : Option ℕ)
    → Accounted id q
    → Accounted id (maintenance_ends q error)
maintenance_ends-Accounted id q error h = by_phase q.phase refl error
  where
    stranded_all : (q.phase ≡ maintaining) → Accounted id (strand q none)
    stranded_all e = unfold strand count in ground (arith, places-strand id q none)

    by_phase :
        (p : Phase) → q.phase ≡ p → (error : Option ℕ) → Accounted id (maintenance_ends q error)
    by_phase idle e error = rw (maintenance_ends_idle q error e) h
    by_phase (running scope manual waiters) e error =
        rw (maintenance_ends_running q scope manual waiters e error) h
    by_phase ending e error = rw (maintenance_ends_ending q error e) h
    by_phase maintaining e none = elim (Bool-cases (ltb 0 (length q.pending_scopes))) [
      | inl t ↦
          rw (maintenance_ends-more q e t)
            (unfold count in ground (arith, places-claim id q, next_waiter-claim q))
      | inr f ↦ rw (maintenance_ends-done q e f) (stranded_all e)
    ]
    by_phase maintaining e (some c) = rw (maintenance_ends-error q c e) (stranded_all e)

drain_ends-Accounted : (id : ℕ) (q : Queue) → Accounted id q → Accounted id (drain_ends q)
unfolding drain_ends count
drain_ends-Accounted id q h = ground arith

step-Accounted : (id : ℕ) (q : Queue) (a : Action) → Accounted id q → Accounted id (step q a)
unfolding step
step-Accounted id q (requests manual scope) h = request-Accounted id q manual scope h
step-Accounted id q (automatic scope) h = request_automatic-Accounted id q scope h
step-Accounted id q (polling scope) h = request_polling-Accounted id q scope h
step-Accounted id q closes h = unfold close in h
step-Accounted id q enters_floor h = unfold enter_floor in h
step-Accounted id q exits_floor h = exit_floor-Accounted id q h
step-Accounted id q drain_is_over h = drain_ends-Accounted id q h
step-Accounted id q (cycle_is_over error) h = cycle_ends-Accounted id q error h
step-Accounted id q (maintenance_is_over error) h = maintenance_ends-Accounted id q error h

run-Accounted :
    (id : ℕ) (q : Queue) (actions : List Action) → Accounted id q → Accounted id (run q actions)
unfolding run
run-Accounted id q [] h = h
run-Accounted id q (a ∷ rest) h = run-Accounted id (step q a) rest (step-Accounted id q a h)

-- Whatever happens to a new queue, each promise that it has handed out is in exactly one place: it
-- waits, or the running cycle carries it, or it was settled, once. No other number is in any place.
pub run-places :
    (actions : List Action) (id : ℕ)
    → places id (run empty actions) ≡ (if ltb id (run empty actions).next_waiter then 1 else 0)
run-places actions id = run-Accounted id empty actions (unfold count in ground arith)

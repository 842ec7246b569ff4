-- ===== src/Sync/CycleQueue.antt =====
-- src/sync/cycleQueue.ts, `SyncCycleQueue`, as a machine whose steps are what happens between two
-- awaits. A promise is the number of its waiter; what becomes of it is kept in `settled`.
pub mod Steps
pub mod Promises
pub mod Orderly
pub mod Progress
pub mod Coverage
use cursor_setting_sync.Base.{
  ℕ, suc, ◌+◌, ◌-◌, Bool, true, false, ◌&&◌, ◌||◌, not, Option, none, some, List, [], ◌∷◌, ◌++◌,
  map, ltb, nat_beq, length, if◌then◌else◌,
}
use cursor_setting_sync.Base.Sets.{add}
use cursor_setting_sync.Sync.Scopes.{SyncScope, scope_eq, merge_sync_scopes, sync_scope_covers}

-- Where `drainQueue` stands: no drain, awaiting `runCycle` or `runMaintenance`, or ended, with the
-- `finally` that sets `drain` to null still to run.
pub data Phase : Type 0 where
  idle : Phase
  running : SyncScope → Bool → List ℕ → Phase
  maintaining : Phase
  ending : Phase

-- How a promise was settled. An error is the number by which the cycle threw it; `stranded` is the
-- error of a request whose cycle never began, with its cause.
pub data Settlement : Type 0 where
  succeeded : Settlement
  failed : ℕ → Settlement
  stranded : Option ℕ → Settlement

pub record Queue : Type 0 where
  pub pending_scopes : List SyncScope
  pub pending_manual : Bool
  pub waiters : List ℕ
  pub phase : Phase
  pub closed : Bool
  pub floor : ℕ
  pub deferred_scopes : List SyncScope
  pub pending_automatic_waiter : Option ℕ
  pub next_waiter : ℕ
  pub settled : List (ℕ × Settlement)

abbrev pub empty : Queue
empty = record {
  pending_scopes = [];
  pending_manual = false;
  waiters = [];
  phase = idle;
  closed = false;
  floor = 0;
  deferred_scopes = [];
  pending_automatic_waiter = none;
  next_waiter = 0;
  settled = [];
}

-- `runningScope`: set while `runCycle` is awaited.
abbrev pub running_scope : Phase → Option SyncScope
running_scope idle = none
running_scope (running scope manual carried) = some scope
running_scope maintaining = none
running_scope ending = none

-- `drain !== null`.
abbrev pub draining : Phase → Bool
draining idle = false
draining (running scope manual carried) = true
draining maintaining = true
draining ending = true

-- `settle`.
abbrev pub settle : List ℕ → Settlement → List (ℕ × Settlement)
settle waiters outcome = map (λ waiter. (waiter, outcome)) waiters

-- The head of the inner loop: claim what is pending, or go on to the maintenance.
unfoldable pub claim : Queue → Queue
claim q =
    if ltb 0 (length q.pending_scopes)
    then record q {
      pending_scopes = [];
      pending_manual = false;
      waiters = [];
      phase = running (merge_sync_scopes q.pending_scopes) q.pending_manual q.waiters;
      pending_automatic_waiter = none;
    }
    else record q { phase = maintaining }

-- The outer `finally`: whoever is left is told that no cycle of theirs ran.
unfoldable pub strand : Queue → Option ℕ → Queue
strand q cause = record q {
  waiters = [];
  phase = ending;
  pending_automatic_waiter = none;
  settled = q.settled ++ settle q.waiters (stranded cause);
}

unfoldable pub start_drain : Queue → Queue
start_drain q = if draining q.phase then q else claim q

-- The queue with a waiter of its own pushed.
unfoldable pub push_waiter : Queue → Queue
push_waiter q = record q {
  waiters = q.waiters ++ q.next_waiter ∷ [];
  next_waiter = suc q.next_waiter;
}

-- What the calls write before they start the drain: a request pushes a waiter of its own, and so
-- does the first automatic one of a batch, which the others of the batch share.
abbrev pub with_request : Queue → Bool → SyncScope → Queue
with_request q manual scope = push_waiter (record q {
  pending_scopes = add scope q.pending_scopes;
  pending_manual = q.pending_manual || manual;
})

abbrev pub with_automatic : Queue → SyncScope → Queue
with_automatic q scope = push_waiter (record q {
  pending_scopes = add scope q.pending_scopes;
  pending_automatic_waiter = some q.next_waiter;
})

abbrev pub with_scope : Queue → SyncScope → Queue
with_scope q scope = record q { pending_scopes = add scope q.pending_scopes }

-- A call returns the queue and the promise; `none` is a promise that is resolved already.
unfoldable pub request : Queue → Bool → SyncScope → Queue × Option ℕ
request q manual scope =
    if q.closed then (q, none) else (start_drain (with_request q manual scope), some q.next_waiter)

unfoldable pub request_automatic : Queue → SyncScope → Queue × Option ℕ
request_automatic q scope =
    if q.closed
    then (q, none)
    else if ltb 0 q.floor
    then (record q { deferred_scopes = add scope q.deferred_scopes }, none)
    else elim q.pending_automatic_waiter [
      | some shared ↦ (start_drain (with_scope q scope), some shared)
      | none ↦ (start_drain (with_automatic q scope), some q.next_waiter)
    ]

abbrev pub is_covered : Option SyncScope → SyncScope → Bool
is_covered none scope = false
is_covered (some cover) scope = sync_scope_covers cover scope

unfoldable pub request_polling : Queue → SyncScope → Queue × Option ℕ
request_polling q scope =
    if q.closed || ltb 0 q.floor
    then (q, none)
    else if draining q.phase
    then (if is_covered (running_scope q.phase) scope then (q, none) else request_automatic q scope)
    else request q false scope

unfoldable pub close : Queue → Queue
close q = record q { closed = true; deferred_scopes = [] }

-- `withCommandFloor` up to its await, and its `finally`.
unfoldable pub enter_floor : Queue → Queue
enter_floor q = record q { floor = q.floor + 1 }

unfoldable pub exit_floor : Queue → Queue
exit_floor q =
    let lowered : Queue = record q { floor = q.floor - 1 } in
    if not q.closed && nat_beq lowered.floor 0 && ltb 0 (length q.deferred_scopes)
    then (request_automatic (record lowered { deferred_scopes = [] })
        (merge_sync_scopes q.deferred_scopes)).0
    else lowered

-- `await runCycle` comes back: its callers hear of it, and the loop goes on or ends.
unfoldable pub cycle_ends : Queue → Option ℕ → Queue
cycle_ends q error = elim q.phase [
  | running scope manual carried ↦ elim error [
    | none ↦ claim (record q { settled = q.settled ++ settle carried succeeded })
    | some e ↦ strand (record q { settled = q.settled ++ settle carried (failed e) }) (some e)
  ]
  | idle ↦ q
  | maintaining ↦ q
  | ending ↦ q
]

-- `await runMaintenance` comes back. Where it throws, `escaped` is still null.
unfoldable pub maintenance_ends : Queue → Option ℕ → Queue
maintenance_ends q error = elim q.phase [
  | maintaining ↦ elim error [
    | none ↦ if ltb 0 (length q.pending_scopes) then claim q else strand q none
    | some e ↦ strand q none
  ]
  | idle ↦ q
  | running scope manual carried ↦ q
  | ending ↦ q
]

-- The `finally` of `startDrain`.
unfoldable pub drain_ends : Queue → Queue
drain_ends q = elim q.phase [
  | ending ↦ record q { phase = idle }
  | idle ↦ q
  | running scope manual carried ↦ q
  | maintaining ↦ q
]

-- What can happen to the queue; a step that its phase does not await changes nothing.
pub data Action : Type 0 where
  requests : Bool → SyncScope → Action
  automatic polling : SyncScope → Action
  closes enters_floor exits_floor drain_is_over : Action
  cycle_is_over maintenance_is_over : Option ℕ → Action

unfoldable pub step : Queue → Action → Queue
step q (requests manual scope) = (request q manual scope).0
step q (automatic scope) = (request_automatic q scope).0
step q (polling scope) = (request_polling q scope).0
step q closes = close q
step q enters_floor = enter_floor q
step q exits_floor = exit_floor q
step q drain_is_over = drain_ends q
step q (cycle_is_over error) = cycle_ends q error
step q (maintenance_is_over error) = maintenance_ends q error

unfoldable pub run : Queue → List Action → Queue
run q [] = q
run q (action ∷ actions) = run (step q action) actions

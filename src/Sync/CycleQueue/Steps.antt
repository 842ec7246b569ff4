-- ===== src/Sync/CycleQueue/Steps.antt =====
-- src/sync/cycleQueue.ts: the steps of the drain, by the phase in which they find the queue.
use cursor_setting_sync.Base.{
  ℕ, ◌≡◌, sym, subst, inl, inr, Bool, true, false, Option, none, some, List, ◌++◌, ltb, length,
  arith, Bool-cases, Option-cases,
}
use cursor_setting_sync.Base.Sets.{add}
use cursor_setting_sync.Sync.Scopes.{SyncScope, scope_eq}
use cursor_setting_sync.Sync.CycleQueue.{
  Queue, idle, running, maintaining, ending, succeeded, failed, settle, claim, strand, cycle_ends,
  maintenance_ends, request, request_automatic, start_drain, with_request, with_automatic,
  with_scope,
}

module _ (q : Queue) (scope : SyncScope) (manual : Bool) (waiters : List ℕ)
    (at : q.phase ≡ running scope manual waiters) where
  pub cycle_ends-ok :
      cycle_ends q none ≡ claim (record q { settled = q.settled ++ settle waiters succeeded })
  unfolding cycle_ends
  cycle_ends-ok = ground arith

  pub cycle_ends-error :
      (e : ℕ)
      → cycle_ends q (some e)
        ≡ strand (record q { settled = q.settled ++ settle waiters (failed e) }) (some e)
  unfolding cycle_ends
  cycle_ends-error e = ground arith

  pub maintenance_ends_running : (error : Option ℕ) → maintenance_ends q error ≡ q
  unfolding maintenance_ends
  maintenance_ends_running error = ground arith

pub cycle_ends_idle : (q : Queue) (error : Option ℕ) → q.phase ≡ idle → cycle_ends q error ≡ q
unfolding cycle_ends
cycle_ends_idle q error e = ground arith

pub cycle_ends_maintaining :
    (q : Queue) (error : Option ℕ) → q.phase ≡ maintaining → cycle_ends q error ≡ q
unfolding cycle_ends
cycle_ends_maintaining q error e = ground arith

pub cycle_ends_ending : (q : Queue) (error : Option ℕ) → q.phase ≡ ending → cycle_ends q error ≡ q
unfolding cycle_ends
cycle_ends_ending q error e = ground arith

pub maintenance_ends_idle :
    (q : Queue) (error : Option ℕ) → q.phase ≡ idle → maintenance_ends q error ≡ q
unfolding maintenance_ends
maintenance_ends_idle q error e = ground arith

pub maintenance_ends_ending :
    (q : Queue) (error : Option ℕ) → q.phase ≡ ending → maintenance_ends q error ≡ q
unfolding maintenance_ends
maintenance_ends_ending q error e = ground arith

pub maintenance_ends-more :
    (q : Queue)
    → q.phase ≡ maintaining
    → ltb 0 (length q.pending_scopes) ≡ true
    → maintenance_ends q none ≡ claim q
unfolding maintenance_ends
maintenance_ends-more q e h = ground arith

pub maintenance_ends-done :
    (q : Queue)
    → q.phase ≡ maintaining
    → ltb 0 (length q.pending_scopes) ≡ false
    → maintenance_ends q none ≡ strand q none
unfolding maintenance_ends
maintenance_ends-done q e h = ground arith

pub maintenance_ends-error :
    (q : Queue) (c : ℕ) → q.phase ≡ maintaining → maintenance_ends q (some c) ≡ strand q none
unfolding maintenance_ends
maintenance_ends-error q c e = ground arith

module _ (q : Queue) (manual : Bool) (scope : SyncScope) where
  pub request_closed : q.closed ≡ true → request q manual scope ≡ (q, none)
  unfolding request
  request_closed h = ground arith

  pub request_open :
      q.closed ≡ false
      → request q manual scope ≡ (start_drain (with_request q manual scope), some q.next_waiter)
  unfolding request
  request_open h = ground arith

module _ (q : Queue) (scope : SyncScope) where
  pub request_automatic_closed : q.closed ≡ true → request_automatic q scope ≡ (q, none)
  unfolding request_automatic
  request_automatic_closed h = ground arith

  module _ (open' : q.closed ≡ false) where
    pub request_automatic_held :
        ltb 0 q.floor ≡ true
        → request_automatic q scope
          ≡ (record q { deferred_scopes = add scope q.deferred_scopes }, none)
    unfolding request_automatic
    request_automatic_held h = ground arith

    pub request_automatic_first :
        ltb 0 q.floor ≡ false
        → q.pending_automatic_waiter ≡ none
        → request_automatic q scope ≡ (start_drain (with_automatic q scope), some q.next_waiter)
    unfolding request_automatic
    request_automatic_first h k = ground arith

    pub request_automatic_shared :
        (shared : ℕ)
        → ltb 0 q.floor ≡ false
        → q.pending_automatic_waiter ≡ some shared
        → request_automatic q scope ≡ (start_drain (with_scope q scope), some shared)
    unfolding request_automatic
    request_automatic_shared shared h k = ground arith

-- What holds of the queue with the scope and the waiter added, and passes through `startDrain`, holds
-- after a request of either kind.
module _ (P : Queue → Type 0) (drained : (r : Queue) → P r → P (start_drain r)) (q : Queue)
    (h : P q) (scope : SyncScope) where
  pub request_keeps :
      (manual : Bool) → P (with_request q manual scope) → P (request q manual scope).0
  request_keeps manual w = elim (Bool-cases q.closed) [
    | inl t ↦ subst (λ (r : Queue × Option ℕ). P r.0) (sym (request_closed q manual scope t)) h
    | inr f ↦
        subst (λ (r : Queue × Option ℕ). P r.0) (sym (request_open q manual scope f))
          (drained (with_request q manual scope) w)
  ]

  pub request_automatic_keeps :
      P (record q { deferred_scopes = add scope q.deferred_scopes })
      → P (with_automatic q scope)
      → P (with_scope q scope)
      → P (request_automatic q scope).0
  request_automatic_keeps held first shared = elim (Bool-cases q.closed) [
    | inl t ↦ back (request_automatic_closed q scope t) h
    | inr f ↦ elim (Bool-cases (ltb 0 q.floor)) [
      | inl t ↦ back (request_automatic_held q scope f t) held
      | inr g ↦ elim (Option-cases q.pending_automatic_waiter) [
        | inl n ↦
            back (request_automatic_first q scope f g n) (drained (with_automatic q scope) first)
        | inr (id, e) ↦
            back (request_automatic_shared q scope f id g e) (drained (with_scope q scope) shared)
      ]
    ]
  ]
    where
      back :
          {r : Queue × Option ℕ}
          → request_automatic q scope ≡ r
          → P r.0
          → P (request_automatic q scope).0
      back e p = subst (λ (r : Queue × Option ℕ). P r.0) (sym e) p

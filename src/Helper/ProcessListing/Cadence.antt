-- ===== src/Helper/ProcessListing/Cadence.antt =====
-- src/helper/processListingCadence.ts: the listings over the ticks of a helper.
use cursor_setting_sync.Base.{
  ℕ, ◌+◌, ◌≤◌, ◌<◌, ◌≡◌, refl, ◌⊎◌, inl, inr, Bool, true, false, some, List, [], ◌∷◌, arith,
  if◌then◌else◌, Bool-cases, Option-cases,
}
use cursor_setting_sync.Helper.ProcessListing.{
  CursorProcessListingState, is_due, cursor_process_listing_decision,
}

not_due-last :
    (previous : CursorProcessListingState) (now : ℕ) (host_gone : Bool) (interval_ms : ℕ)
    → is_due previous now host_gone interval_ms ≡ false
    → (last : ℕ) × (previous.last_listing_at ≡ some last)
      × (last ≤ now)
      × (now < last + interval_ms)
unfolding is_due
not_due-last previous now host_gone interval_ms h = elim (Option-cases previous.last_listing_at) [
  | inl n ↦ absurd (ground (arith, n, h))
  | inr (last, e) ↦ (last, e, ground (arith, e, h), ground (arith, e, h))
]

due-elapsed :
    (previous : CursorProcessListingState) (now : ℕ) (host_gone : Bool) (interval_ms last : ℕ)
    → is_due previous now host_gone interval_ms ≡ true
    → previous.last_listing_at ≡ some last
    → previous.host_gone ≡ host_gone
    → last ≤ now
    → last + interval_ms ≤ now
unfolding is_due
due-elapsed previous now host_gone interval_ms last h e g l = ground (arith, h, e, g, l)

-- After any tick, whatever was before, there has been a listing, not later than now; and it is at this
-- very tick or younger than the interval.
pub cursor_process_listing_decision_lem :
    (previous : CursorProcessListingState) (now : ℕ) (host_gone : Bool) (interval_ms : ℕ)
    → (last : ℕ) × ((cursor_process_listing_decision previous now host_gone
          interval_ms).state.last_listing_at
        ≡ some last)
      × (last ≤ now)
      × ((last ≡ now) ⊎ (now < last + interval_ms))
unfolding cursor_process_listing_decision
cursor_process_listing_decision_lem previous now host_gone interval_ms =
    elim (Bool-cases (is_due previous now host_gone interval_ms)) [
      | inl t ↦ (now, rw t refl, omega arith, inl refl)
      | inr f ↦
          let (last, e, le, lt) = not_due-last previous now host_gone interval_ms f in
          (last, rw f e, le, inr lt)
    ]

module _ (interval_ms : ℕ) (host_gone : Bool) where
  -- The times at which a helper lists over its ticks, with the host as it stands.
  unfoldable pub listings : CursorProcessListingState → List ℕ → List ℕ
  listings state [] = []
  listings state (now ∷ ticks) =
      let decision = cursor_process_listing_decision state now host_gone interval_ms in
      let rest = listings decision.state ticks in if decision.due then now ∷ rest else rest

  -- Times that do not fall.
  abbrev pub InOrder : ℕ → List ℕ → Type 0
  InOrder from [] = Unit
  InOrder from (now ∷ ticks) = (from ≤ now) × InOrder now ticks

  -- Times that are an interval apart at least.
  abbrev pub Spaced : ℕ → List ℕ → Type 0
  Spaced from [] = Unit
  Spaced from (now ∷ ticks) = (from + interval_ms ≤ now) × Spaced now ticks

  listings-Spaced_from :
      (state : CursorProcessListingState) (last from : ℕ) (ticks : List ℕ)
      → state.last_listing_at ≡ some last
      → state.host_gone ≡ host_gone
      → last ≤ from
      → InOrder from ticks
      → Spaced last (listings state ticks)
  unfolding listings cursor_process_listing_decision
  listings-Spaced_from state last from [] e g l o = tt
  listings-Spaced_from state last from (now ∷ ticks) e g l (le, o) =
      elim (Bool-cases (is_due state now host_gone interval_ms)) [
        | inl t ↦ rw t (
          due-elapsed state now host_gone interval_ms last t e g (omega (arith, l, le)),
          listings-Spaced_from (record { last_listing_at = some now; host_gone = host_gone }) now
              now ticks refl refl (omega arith) o,
        )
        | inr f ↦ rw f (
            listings-Spaced_from
              (record { last_listing_at = state.last_listing_at; host_gone = host_gone }) last now
              ticks e refl (omega (arith, l, le)) o)
      ]

  -- While the host stands as it stood at the last listing's tick and the clock does not fall, every
  -- listing is at least an interval after the one before.
  pub listings-Spaced :
      (last : ℕ) (ticks : List ℕ)
      → InOrder last ticks
      → Spaced last (listings (record { last_listing_at = some last; host_gone = host_gone }) ticks)
  listings-Spaced last ticks o =
      listings-Spaced_from (record { last_listing_at = some last; host_gone = host_gone }) last last
        ticks refl refl (omega arith) o

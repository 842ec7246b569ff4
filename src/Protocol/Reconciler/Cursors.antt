-- ===== src/Protocol/Reconciler/Cursors.antt =====
-- src/protocol/reconciler.ts: where `reconcile` leaves the stream cursors and the Lamport clock.
use cursor_setting_sync.Base.{
  ℕ, ◌+◌, ◌≤◌, ◌<◌, ◌≡◌, refl, ap, ◌∙◌, ◌⊎◌, inl, inr, true, Option, none, some, List, [], ◌∷◌,
  arith, ltb, ltb→lt, length, In, filter, Bool-cases, eq_cases,
}
use cursor_setting_sync.Base.Texts.{Text, text_eq}
use cursor_setting_sync.Base.Maps.{Map, get, set, get-set}
use cursor_setting_sync.Types.{DecryptedEvent, StreamCursor, CheckpointManifest, LocalSyncState}
use cursor_setting_sync.Protocol.Reconciler.Streams.{
  ok, Accepted, covers, device_of, sequence_of, first_expected, first_previous, checkpoint_cursor,
  accept_contiguous_streams,
}
use cursor_setting_sync.Protocol.Reconciler.Chains.{Chain, >>=-eq-ok}
use cursor_setting_sync.Protocol.Reconciler.Acceptance.{
  accept_contiguous_streams-Chain, accept_contiguous_streams-pinned,
}
use cursor_setting_sync.Protocol.Reconciler.Grouping.{of_device}
use cursor_setting_sync.Protocol.Reconciler.Conflicts.{Host}
use cursor_setting_sync.Protocol.Reconciler.Reconcile.{
  advance_streams, raise_lamport, reconcile, apply_accepted, ReconcileResult,
}

-- The cursor after a device's events, one after the other.
cursor_after : Option StreamCursor → List DecryptedEvent → Option StreamCursor
cursor_after cursor [] = cursor
cursor_after cursor (x ∷ xs) =
    cursor_after
      (some (record { last_sequence = sequence_of x; last_event_hash = some x.event_hash })) xs

get-advance_streams :
    (streams : Map Text StreamCursor) (events : List DecryptedEvent) (device : Text)
    → get (advance_streams streams events) device
      ≡ cursor_after (get streams device) (of_device device events)
unfolding advance_streams cursor_after filter
get-advance_streams streams [] device = refl
get-advance_streams streams (x ∷ xs) device =
    let at : StreamCursor = record {
      last_sequence = sequence_of x;
      last_event_hash = some x.event_hash;
    } in
    elim (eq_cases (device_of x) device) [
      | inl (t, e) ↦
          get-advance_streams (set streams (device_of x) at) xs device
          ∙ rw (t, get-set streams (device_of x) device at) (rw t refl)
      | inr (f, e) ↦
          get-advance_streams (set streams (device_of x) at) xs device
          ∙ rw (f, get-set streams (device_of x) device at) (rw f refl)
    ]

-- After a chain the cursor stands at its last event.
cursor_after-Chain :
    (cursor : Option StreamCursor) (e : ℕ) (p : Option Text) (xs : List DecryptedEvent)
    → Chain e p xs
    → ((xs ≡ []) × (cursor_after cursor xs ≡ cursor))
      ⊎ ((c : StreamCursor) × (cursor_after cursor xs ≡ some c)
          × (c.last_sequence + 1 ≡ e + length xs))
unfolding cursor_after
cursor_after-Chain cursor e p [] h = inl (refl, refl)
cursor_after-Chain cursor e p (x ∷ xs) (s, prev, h) =
    let at : StreamCursor = record {
      last_sequence = sequence_of x;
      last_event_hash = some x.event_hash;
    } in
    elim (cursor_after-Chain (some at) (e + 1) (some x.event_hash) xs h) [
      | inl (n, q) ↦ inr (at, q, omega (arith, s, ap length n))
      | inr (c, q, l) ↦ inr (c, q, omega (arith, l))
    ]

Chain-below :
    (e : ℕ) (p : Option Text) (xs : List DecryptedEvent) (x : DecryptedEvent)
    → Chain e p xs
    → In x xs
    → sequence_of x < e + length xs
Chain-below e p [] x h i = absurd i
Chain-below e p (y ∷ ys) x (s, prev, h) (inl q) = omega (arith, s, ap sequence_of q)
Chain-below e p (y ∷ ys) x (s, prev, h) (inr i) =
    omega (arith, Chain-below (e + 1) (some y.event_hash) ys x h i)

covers-lt :
    (cursor : Option StreamCursor) (n : ℕ) → covers cursor n ≡ true → n < first_expected cursor
covers-lt none n h = absurd (ground arith)
covers-lt (some c) n h = ground arith

raise_lamport-max :
    (lamport : ℕ) (events : List DecryptedEvent)
    → (lamport ≤ raise_lamport lamport events)
      × ((x : DecryptedEvent) → In x events → x.manifest.lamport ≤ raise_lamport lamport events)
      × ((raise_lamport lamport events ≡ lamport)
          ⊎ ((x : DecryptedEvent) × In x events
              × (raise_lamport lamport events ≡ x.manifest.lamport)))
unfolding raise_lamport
raise_lamport-max lamport [] = (omega arith, λ x i. absurd i, inl refl)
raise_lamport-max lamport (y ∷ ys) = elim (Bool-cases (ltb lamport y.manifest.lamport)) [
  | inl t ↦
      let (low, all, top) = raise_lamport-max y.manifest.lamport ys in
      rw t (
        omega (arith, low, ltb→lt lamport y.manifest.lamport t),
        λ x i. elim i [
          | inl e ↦ omega (arith, low, ap (λ (z : DecryptedEvent). z.manifest.lamport) e)
          | inr j ↦ all x j
        ],
        elim top [ inl e ↦ inr (y, inl refl, e) | inr (x, j, e) ↦ inr (x, inr j, e) ],
      )
  | inr f ↦
      let (low, all, top) = raise_lamport-max lamport ys in
      rw f (
        low,
        λ x i. elim i [ inl e ↦ ground (arith, low, f, e) | inr j ↦ all x j ],
        elim top [ inl e ↦ inl e | inr (x, j, e) ↦ inr (x, inr j, e) ],
      )
]

module _ (host : Host) (events : List DecryptedEvent) (state : LocalSyncState)
    (checkpoint : Option CheckpointManifest) (result : ReconcileResult) (after : LocalSyncState)
    (done : reconcile host events state checkpoint ≡ ok (result, after)) where
  pub accepted_by :
      (accepted : Accepted) × (accept_contiguous_streams events state checkpoint ≡ ok accepted)
      × (apply_accepted host state checkpoint accepted ≡ (result, after))
  unfolding reconcile
  accepted_by =
      let (accepted, e, k) =
        >>=-eq-ok (accept_contiguous_streams events state checkpoint) _ (result, after) done in
      (accepted, e, ground arith)

  -- A pinned cursor never moves back: after a successful `reconcile` every device that had a cursor
  -- has one, at the same event number or a later one.
  pub reconcile-streams_mono :
      (device : Text) (cursor : StreamCursor)
      → get state.streams device ≡ some cursor
      → (later : StreamCursor) × (get after.streams device ≡ some later)
        × (cursor.last_sequence ≤ later.last_sequence)
  unfolding apply_accepted
  reconcile-streams_mono device cursor pinned =
      let (accepted, e, k) = accepted_by in
      let streams : after.streams ≡ advance_streams state.streams accepted.accepted =
        ground (arith, k) in
      let at : get after.streams device
          ≡ cursor_after (some cursor) (of_device device accepted.accepted) =
        ap (λ (m : Map Text StreamCursor). get m device) streams
        ∙ get-advance_streams state.streams accepted.accepted device
        ∙ ap (λ (o : Option StreamCursor). cursor_after o (of_device device accepted.accepted))
            pinned in
      let chain = accept_contiguous_streams-Chain state checkpoint events accepted device e in
      let held =
        accept_contiguous_streams-pinned state checkpoint events accepted device cursor e pinned in
      elim (cursor_after-Chain (some cursor) (first_expected (checkpoint_cursor checkpoint device))
        (first_previous (checkpoint_cursor checkpoint device)) (of_device device accepted.accepted)
        chain) [
          | inl (n, q) ↦ (cursor, at ∙ q, omega arith)
          | inr (c, q, l) ↦ (
            c,
            at ∙ q,
            elim held [
              | inl t ↦
                  omega (
                    arith,
                    l,
                    covers-lt (checkpoint_cursor checkpoint device) cursor.last_sequence t,
                  )
              | inr (x, i, s, h) ↦ omega (
                arith,
                s,
                l,
                Chain-below (first_expected (checkpoint_cursor checkpoint device))
                    (first_previous (checkpoint_cursor checkpoint device))
                    (of_device device accepted.accepted) x chain i,
              )
            ],
          )
        ]

  -- After a successful `reconcile` the Lamport clock is the greatest of its old value and those of
  -- the accepted events.
  pub reconcile-lamport :
      (accepted : Accepted)
      → accept_contiguous_streams events state checkpoint ≡ ok accepted
      → (state.lamport ≤ after.lamport)
        × ((x : DecryptedEvent) → In x accepted.accepted → x.manifest.lamport ≤ after.lamport)
        × ((after.lamport ≡ state.lamport)
            ⊎ ((x : DecryptedEvent) × In x accepted.accepted
                × (after.lamport ≡ x.manifest.lamport)))
  unfolding apply_accepted
  reconcile-lamport accepted e =
      let (accepted', e', k) = accepted_by in
      let same : accepted' ≡ accepted = ground (arith, e, e') in
      let clock : after.lamport ≡ raise_lamport state.lamport accepted.accepted =
        ground (arith, k, same) in
      rw clock (raise_lamport-max state.lamport accepted.accepted)

-- ===== src/Protocol/Reconciler/Acceptance.antt =====
-- src/protocol/reconciler.ts: `acceptContiguousStreams` as a whole, device by device.
use mathlib.Core.List.{append-nil}
use cursor_setting_sync.Base.{
  ℕ, ◌≤◌, ◌≡◌, refl, sym, ap, ap₂, ◌∙◌, subst, ◌⊎◌, inl, inr, true, false, Option, none, some, List,
  [], ◌∷◌, ◌++◌, arith, In, filter, filter-append, filter_all, filter_none, option_eq, Bool-cases,
  Option-cases, beq_refl, eq_cases,
}
use cursor_setting_sync.Base.Texts.{Text, text_eq}
use cursor_setting_sync.Base.Maps.{Map, get, In-get}
use cursor_setting_sync.Base.Sort.{sort, In-sort}
use cursor_setting_sync.Types.{DecryptedEvent, StreamCursor, CheckpointManifest, LocalSyncState}
use cursor_setting_sync.Protocol.Reconciler.Streams.{
  ok, Run, Accepted, Groups, accept_run, covers, device_of, sequence_of, end_run, accept_device,
  accept_groups, group_events, compare_events, first_expected, first_previous, checkpoint_cursor,
  check_pinned, check_pinned_stream, is_valid_cursor, accept_contiguous_streams,
}
use cursor_setting_sync.Protocol.Reconciler.Chains.{
  Chain, accept_run-IsRun, accept_run-In, run-pinned, >>=-eq-ok,
}
use cursor_setting_sync.Protocol.Reconciler.Grouping.{of_device, AreGroups, group_events-AreGroups}

module _ (state : LocalSyncState) (checkpoint : Option CheckpointManifest) where
  -- The events that are accepted for a device are those of the run over its group.
  record IsAccepted (groups : Groups) (all : List DecryptedEvent) (device : Text) : Type 0 where
    absent : get groups device ≡ none → of_device device all ≡ []
    present :
        (events : List DecryptedEvent)
        → get groups device ≡ some events
        → (run : Run) × (accept_device state checkpoint device events ≡ ok run)
          × (of_device device all ≡ run.accepted)

  end_run-eq :
      (pinned : Option StreamCursor) (device : Text) (r run : Run)
      → end_run pinned device r ≡ ok run
      → r ≡ run
  unfolding end_run
  end_run-eq none device r run h = ground arith
  end_run-eq (some pinned) device r run h = ground arith

  accept_device_inv :
      (device : Text) (events : List DecryptedEvent) (run : Run)
      → accept_device state checkpoint device events ≡ ok run
      → (accept_run
            (get state.streams device)
            device
            (sort compare_events events)
            (first_expected (checkpoint_cursor checkpoint device))
            (first_previous (checkpoint_cursor checkpoint device))
          ≡ ok run)
        × (end_run (get state.streams device) device run ≡ ok run)
  unfolding accept_device
  accept_device_inv device events run h =
      let (r, e, k) = >>=-eq-ok _ (end_run (get state.streams device) device) run h in
      let same = end_run-eq (get state.streams device) device r run k in
      (
        e ∙ ap ok same,
        subst (λ (z : Run). end_run (get state.streams device) device z ≡ ok run) same k,
      )

  accept_device-In :
      (device : Text) (events : List DecryptedEvent) (run : Run) (x : DecryptedEvent)
      → accept_device state checkpoint device events ≡ ok run
      → In x run.accepted
      → In x events
  accept_device-In device events run x h i = (In-sort compare_events x events).0 (
      accept_run-In (get state.streams device) device (sort compare_events events)
        (first_expected (checkpoint_cursor checkpoint device))
        (first_previous (checkpoint_cursor checkpoint device)) run x
        (accept_device_inv device events run h).0 i)

  accept_groups_inv :
      (device : Text) (events : List DecryptedEvent) (groups : Groups) (result : Accepted)
      → accept_groups state checkpoint ((device, events) ∷ groups) ≡ ok result
      → (run : Run) × (accept_device state checkpoint device events ≡ ok run)
        × (rest : Accepted) × (accept_groups state checkpoint groups ≡ ok rest)
        × (result.accepted ≡ run.accepted ++ rest.accepted)
  unfolding accept_groups
  accept_groups_inv device events groups result h =
      let (run, e, k) = >>=-eq-ok (accept_device state checkpoint device events) _ result h in
      let (rest, f, l) = >>=-eq-ok (accept_groups state checkpoint groups) _ result k in
      (run, e, rest, f, ground (arith, l))

  tail-AreGroups :
      (device : Text) (events : List DecryptedEvent) (groups : Groups)
      → AreGroups ((device, events) ∷ groups)
      → AreGroups groups
  unfolding get
  tail-AreGroups device events groups ((new, one), of) =
      (one, λ d xs x h i. of d xs x (ground (arith, text_eq.equals_iff device d)) i)

  accept_groups-IsAccepted :
      (groups : Groups) (result : Accepted) (device : Text)
      → AreGroups groups
      → accept_groups state checkpoint groups ≡ ok result
      → IsAccepted groups result.accepted device
  unfolding get
  accept_groups-IsAccepted [] result device g h = record {
    absent = λ e. unfold accept_groups filter in ground arith;
    present = λ events e. absurd (ground arith);
  }
  accept_groups-IsAccepted ((d, events) ∷ groups) result device g h =
      let (run, e, rest, f, all) = accept_groups_inv d events groups result h in
      let ih = accept_groups-IsAccepted groups rest device (tail-AreGroups d events groups g) f in
      let split : of_device device result.accepted
          ≡ of_device device run.accepted ++ of_device device rest.accepted =
        ap (of_device device) all ∙ filter-append _ run.accepted rest.accepted in
      let mine : (x : DecryptedEvent) → In x run.accepted → device_of x ≡ d =
        λ x i. g.1 d events x (rw (beq_refl d) refl) (accept_device-In d events run x e i) in
      elim (eq_cases d device) [
        | inl (t, same) ↦ record {
          absent = λ n. absurd (ground (arith, t));
          present = λ events' p. (
            run,
            (let q : events ≡ events' = ground (arith, t) in
                subst
                  (λ (z : List DecryptedEvent). accept_device state checkpoint device z ≡ ok run) q
                  (subst (λ (z : Text). accept_device state checkpoint z events ≡ ok run) same e)),
            split
                ∙ ap₂ ◌++◌ (filter_all _ run.accepted (λ x i. rw (mine x i) t))
                    (ih.absent (subst (λ (z : Text). get groups z ≡ none) same g.0.0))
                ∙ append-nil run.accepted,
          );
        }
        | inr (f', other) ↦
            let gone : of_device device run.accepted ≡ [] =
              filter_none _ run.accepted (λ x i. rw (mine x i) f') in
            let whole : of_device device result.accepted ≡ of_device device rest.accepted =
              split ∙ ap (λ (z : List DecryptedEvent). z ++ of_device device rest.accepted) gone in
            record {
              absent = λ n. whole ∙ ih.absent (ground (arith, n, f'));
              present = λ events' p.
                  let (run', q, w) = ih.present events' (ground (arith, p, f')) in
                  (run', q, whole ∙ w);
            }
      ]

  -- What a successful call accepts, device by device.
  accept-IsAccepted :
      (events : List DecryptedEvent) (result : Accepted) (device : Text)
      → accept_contiguous_streams events state checkpoint ≡ ok result
      → IsAccepted (group_events state checkpoint [] events) result.accepted device
  unfolding accept_contiguous_streams
  accept-IsAccepted events result device h =
      let (u, e, k) =
        >>=-eq-ok (check_pinned checkpoint (group_events state checkpoint [] events) state.streams)
          _ result h in
      accept_groups-IsAccepted (group_events state checkpoint [] events) result device
        (group_events-AreGroups state checkpoint [] events
          (tt, λ d xs x p i. absurd (unfold get in ground arith)))
        k

  -- The events that a successful call accepts for a device form one chain of hashes with no gap, which begins where the
  -- checkpoint's cursor of the device ends, or at event 1.
  pub accept_contiguous_streams-Chain :
      (events : List DecryptedEvent) (result : Accepted) (device : Text)
      → accept_contiguous_streams events state checkpoint ≡ ok result
      → Chain
          (first_expected (checkpoint_cursor checkpoint device))
          (first_previous (checkpoint_cursor checkpoint device))
          (of_device device result.accepted)
  accept_contiguous_streams-Chain events result device h =
      elim (Option-cases (get (group_events state checkpoint [] events) device)) [
        | inl n ↦ rw ((accept-IsAccepted events result device h).absent n) tt
        | inr (group, p) ↦
            let (run, e, w) = (accept-IsAccepted events result device h).present group p in
            rw w
              (accept_run-IsRun (get state.streams device) device _ _ _ run
                (accept_device_inv device group run e).0).chain
      ]

  check_pinned-In :
      (groups : Groups) (streams : Map Text StreamCursor) (device : Text) (cursor : StreamCursor)
      → check_pinned checkpoint groups streams ≡ ok tt
      → In (device, cursor) streams
      → check_pinned_stream checkpoint groups device cursor ≡ ok tt
  unfolding check_pinned
  check_pinned-In groups [] device cursor h i = absurd i
  check_pinned-In groups ((d, c) ∷ streams) device cursor h (inl p) =
      let (u, e, k) = >>=-eq-ok (check_pinned_stream checkpoint groups d c) _ tt h in
      subst (λ (z : Text × StreamCursor). check_pinned_stream checkpoint groups z.0 z.1 ≡ ok tt)
        (sym p) e
  check_pinned-In groups ((d, c) ∷ streams) device cursor h (inr i) =
      let (u, e, k) = >>=-eq-ok (check_pinned_stream checkpoint groups d c) _ tt h in
      check_pinned-In groups streams device cursor k i

  -- A stream that passes is valid, and has events or lies within the checkpoint.
  check_pinned_stream_inv :
      (groups : Groups) (device : Text) (cursor : StreamCursor)
      → check_pinned_stream checkpoint groups device cursor ≡ ok tt
      → (1 ≤ cursor.last_sequence)
        × ((covers (checkpoint_cursor checkpoint device) cursor.last_sequence ≡ true)
            ⊎ ((events : List DecryptedEvent) × (get groups device ≡ some events)))
  unfolding check_pinned_stream is_valid_cursor
  check_pinned_stream_inv groups device cursor h = elim (Option-cases (get groups device)) [
    | inl n ↦ ground (arith, n)
    | inr (events, p) ↦ (ground (arith, p), inr (events, p))
  ]

  first-le :
      (cursor : Option StreamCursor) (n : ℕ)
      → covers cursor n ≡ false
      → 1 ≤ n
      → (1 ≤ first_expected cursor) × (first_expected cursor ≤ n)
  first-le none n h k = (omega arith, k)
  first-le (some c) n h k = (omega arith, ground arith)

  -- After a successful call, for each device that had a pinned cursor, the checkpoint covers the
  -- cursor's number, or an accepted event of the device has that number and the cursor's hash.
  pub accept_contiguous_streams-pinned :
      (events : List DecryptedEvent) (result : Accepted) (device : Text) (cursor : StreamCursor)
      → accept_contiguous_streams events state checkpoint ≡ ok result
      → get state.streams device ≡ some cursor
      → (covers (checkpoint_cursor checkpoint device) cursor.last_sequence ≡ true)
        ⊎ ((x : DecryptedEvent) × In x (of_device device result.accepted)
            × (sequence_of x ≡ cursor.last_sequence)
            × (some x.event_hash ≡ cursor.last_event_hash))
  accept_contiguous_streams-pinned events result device cursor h p =
      elim (Bool-cases (covers (checkpoint_cursor checkpoint device) cursor.last_sequence)) [
        | inl t ↦ inl t
        | inr f ↦ elim passed.1 [ inl t ↦ inl t | inr (group, q) ↦ inr (held f group q) ]
      ]
    where
      groups : Groups
      groups = group_events state checkpoint [] events

      checked : check_pinned checkpoint groups state.streams ≡ ok tt
      checked = unfold accept_contiguous_streams in ground arith

      passed :
          (1 ≤ cursor.last_sequence)
          × ((covers (checkpoint_cursor checkpoint device) cursor.last_sequence ≡ true)
              ⊎ ((group : List DecryptedEvent) × (get groups device ≡ some group)))
      passed = check_pinned_stream_inv groups device cursor (
          check_pinned-In groups state.streams device cursor checked
            (In-get state.streams device cursor p))

      held :
          covers (checkpoint_cursor checkpoint device) cursor.last_sequence ≡ false
          → (group : List DecryptedEvent) → get groups device ≡ some group
          → (x : DecryptedEvent) × In x (of_device device result.accepted)
            × (sequence_of x ≡ cursor.last_sequence)
            × (some x.event_hash ≡ cursor.last_event_hash)
      held f group q =
          let (run, e, w) = (accept-IsAccepted events result device h).present group q in
          let (r, k) = accept_device_inv device group run e in
          let bounds =
            first-le (checkpoint_cursor checkpoint device) cursor.last_sequence f passed.0 in
          let (x, i, s, t) =
            run-pinned cursor device (sort compare_events group) _ _ run run
              (subst
                (λ (o : Option StreamCursor).
                  accept_run o device (sort compare_events group)
                    (first_expected (checkpoint_cursor checkpoint device))
                    (first_previous (checkpoint_cursor checkpoint device))
                  ≡ ok run)
                p r)
              (subst (λ (o : Option StreamCursor). end_run o device run ≡ ok run) p k) bounds.0
              bounds.1 in
          (x, subst (In x) (sym w) i, s, t)

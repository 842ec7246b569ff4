-- ===== src/Tests/Reconciling.antt =====
-- src/protocol/reconciler.ts: the theorems on `reconcile` and on the streams, at two computers' events.
use cursor_setting_sync.Base.{
  ◌≡◌, refl, none, some, [], ◌∷◌, every, filter, find, flat_map, list_beq, option_beq, inl, true,
  In, ◌⊎◌, ◌≤◌,
}
use cursor_setting_sync.Base.Texts.{units, text_eq, text_lt}
use cursor_setting_sync.Base.Maps.{get, set}
use cursor_setting_sync.Base.Sets.{has, add}
use cursor_setting_sync.Base.Sort.{insert, sort}
use cursor_setting_sync.Types.{settings, SyncConflict, StreamCursor, DecryptedEvent}
use cursor_setting_sync.Types.Kinds.{
  supported_kind, first_kind, supported_resource_kinds, kind_text,
}
use cursor_setting_sync.Protocol.Canonical.{compare_code_units}
use cursor_setting_sync.Protocol.VersionId.{version_id, decimal, digits}
use cursor_setting_sync.Protocol.Reconciler.Graph.{
  build_resource_graphs, fold_resources, add_events, add_changes, add_change, add_version,
  change_tip,
}
use cursor_setting_sync.Protocol.Reconciler.Walk.{
  mark_ancestors, walk, links_left, parents_of, push_all,
}
use cursor_setting_sync.Protocol.Reconciler.Order.{compare_tips, candidates, choose_active_tip}
use cursor_setting_sync.Protocol.Reconciler.Tips.{calculate_tips, mark_nodes, mark_parents}
use cursor_setting_sync.Protocol.Reconciler.Streams.{
  ok, Accepted, covers, sequence_of, accept_contiguous_streams, accept_groups, accept_device,
  end_run, accept_run, compare_events, check_pinned, check_pinned_stream, is_valid_cursor, is_hash,
  is_hex, group_events, push_event, is_skipped, checkpoint_cursor,
}
use cursor_setting_sync.Protocol.Reconciler.Conflicts.{
  existing_or_new_conflict, new_conflict, is_open_over, find_common_parent, common_tips,
  ancestors_of,
}
use cursor_setting_sync.Protocol.Reconciler.Reconcile.{
  reconcile, ResourceProjection, apply_accepted, reconcile_resources, reconcile_resource,
  are_equivalent, is_changed,
}
use cursor_setting_sync.Protocol.Reconciler.Chains.{Chain}
use cursor_setting_sync.Protocol.Reconciler.Acceptance.{
  accept_contiguous_streams-Chain, accept_contiguous_streams-pinned,
}
use cursor_setting_sync.Protocol.Reconciler.Grouping.{of_device}
use cursor_setting_sync.Protocol.Reconciler.Cursors.{reconcile-streams_mono}
use cursor_setting_sync.Protocol.Reconciler.Outcomes.{
  IsProjected, IsDisputed, reconcile-IsProjected, reconcile-IsDisputed,
}
use cursor_setting_sync.Base.Sets.{has}
use cursor_setting_sync.Types.{SyncConflict}
use cursor_setting_sync.Base.{ℕ, false}
use cursor_setting_sync.Protocol.Reconciler.History.{ids}
use cursor_setting_sync.Protocol.Reconciler.Reported.{IsSame, reconcile-keeps_reported}
use cursor_setting_sync.Tests.Data.{host, hash, change_of}
use cursor_setting_sync.Tests.Scenario.{events, state, pinned, accepted, outcome, second_of_a}

accepts : accept_contiguous_streams events state none ≡ ok accepted
unfolding accept_contiguous_streams accept_groups accept_device end_run accept_run compare_events
    check_pinned check_pinned_stream is_valid_cursor is_hash is_hex group_events push_event
    is_skipped checkpoint_cursor get set has add sort insert compare_code_units text_lt every
    list_beq option_beq
accepts = refl

is_pinned : get state.streams (units "A") ≡ some pinned
unfolding get list_beq
is_pinned = refl

reconciles : reconcile host events state none ≡ ok outcome
unfolding reconcile accept_contiguous_streams accept_groups accept_device end_run accept_run
    compare_events check_pinned check_pinned_stream is_valid_cursor is_hash is_hex group_events
    push_event is_skipped checkpoint_cursor get set has add sort insert compare_code_units text_lt
    every list_beq option_beq
reconciles = refl

-- What is projected of `r`, and the conflict over `s`.
projection : ResourceProjection
unfolding change_tip
projection = record {
  resource_id = units "r";
  tip =
      change_tip second_of_a
        (change_of (units "r") (units "two") (version_id (hash (units "a1")) 0 ∷ [])) 0 settings;
  changed = true;
}

dispute : SyncConflict
unfolding version_id decimal digits
dispute = record {
  conflict_id = host.random_uuid 0;
  resource_id = units "s";
  kind = settings;
  base_version_id = none;
  tip_version_ids = version_id (hash (units "a1")) 1 ∷ version_id (hash (units "b1")) 0 ∷ [];
  created_at = host.iso_date 0;
  resolved_at = none;
}

projects : In projection outcome.0.projections
unfolding projection reconcile accept_contiguous_streams accept_groups accept_device end_run
    accept_run compare_events check_pinned check_pinned_stream is_valid_cursor is_hash is_hex
    group_events push_event is_skipped checkpoint_cursor get set has add sort insert
    compare_code_units text_lt every list_beq option_beq apply_accepted reconcile_resources
    reconcile_resource are_equivalent is_changed calculate_tips mark_nodes mark_parents
    mark_ancestors walk links_left parents_of push_all compare_tips candidates choose_active_tip
    filter build_resource_graphs fold_resources add_events add_changes add_change add_version
    change_tip supported_kind first_kind supported_resource_kinds kind_text version_id decimal
    digits existing_or_new_conflict new_conflict is_open_over find_common_parent common_tips
    ancestors_of find flat_map
projects = inl refl

disputes : In dispute outcome.0.conflicts
unfolding dispute reconcile accept_contiguous_streams accept_groups accept_device end_run accept_run
    compare_events check_pinned check_pinned_stream is_valid_cursor is_hash is_hex group_events
    push_event is_skipped checkpoint_cursor get set has add sort insert compare_code_units text_lt
    every list_beq option_beq apply_accepted reconcile_resources reconcile_resource are_equivalent
    is_changed calculate_tips mark_nodes mark_parents mark_ancestors walk links_left parents_of
    push_all compare_tips candidates choose_active_tip filter build_resource_graphs fold_resources
    add_events add_changes add_change add_version change_tip supported_kind first_kind
    supported_resource_kinds kind_text version_id decimal digits existing_or_new_conflict
    new_conflict is_open_over find_common_parent common_tips ancestors_of find flat_map
disputes = inl refl

reconcile-IsProjected_example :
    (a : Accepted) × (accept_contiguous_streams events state none ≡ ok a)
    × IsProjected (build_resource_graphs a.accepted none) projection
reconcile-IsProjected_example =
    reconcile-IsProjected host events state none outcome.0 outcome.1 reconciles projection projects

reconcile-IsDisputed_example :
    (a : Accepted) × (accept_contiguous_streams events state none ≡ ok a)
    × IsDisputed (build_resource_graphs a.accepted none) dispute
reconcile-IsDisputed_example =
    reconcile-IsDisputed host events state none outcome.0 outcome.1 reconciles dispute disputes

fresh_uuids : (n : ℕ) → has (host.random_uuid n) (ids state.conflicts) ≡ false
unfolding has
fresh_uuids n = refl

reconcile-keeps_reported_example :
    (dispute.resolved_at ≡ none)
    × ((kept : SyncConflict) × In kept outcome.1.conflicts × IsSame kept dispute)
reconcile-keeps_reported_example =
    reconcile-keeps_reported host events state none outcome.0 outcome.1 reconciles fresh_uuids
      dispute disputes

reconcile-streams_mono_example :
    (later : StreamCursor) × (get outcome.1.streams (units "A") ≡ some later)
    × (1 ≤ later.last_sequence)
reconcile-streams_mono_example =
    reconcile-streams_mono host events state none outcome.0 outcome.1 reconciles (units "A") pinned
      is_pinned

accept_contiguous_streams-Chain_example : Chain 1 none (of_device (units "A") accepted.accepted)
unfolding checkpoint_cursor
accept_contiguous_streams-Chain_example =
    accept_contiguous_streams-Chain state none events accepted (units "A") accepts

accept_contiguous_streams-pinned_example :
    (covers (checkpoint_cursor none (units "A")) 1 ≡ true)
    ⊎ ((x : DecryptedEvent) × In x (of_device (units "A") accepted.accepted)
        × (sequence_of x ≡ 1)
        × (some x.event_hash ≡ pinned.last_event_hash))
accept_contiguous_streams-pinned_example =
    accept_contiguous_streams-pinned state none events accepted (units "A") pinned accepts is_pinned

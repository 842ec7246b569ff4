-- ===== src/Tests/Histories.antt =====
-- src/protocol/reconciler.ts: the theorems on the conflict history, at one conflict that was resolved
-- and one that is open.
use cursor_setting_sync.Base.{
  ◌≡◌, refl, inl, inr, ◌≤◌, true, none, some, [], ◌∷◌, In, ap, length, filter, some_of, list_beq,
}
use cursor_setting_sync.Base.Texts.{Text, units, text_eq}
use cursor_setting_sync.Base.Sets.{has, Distinct}
use cursor_setting_sync.Base.Sort.{sort, insert}
use cursor_setting_sync.Types.{SyncConflict}
use cursor_setting_sync.Protocol.Reconciler.Conflicts.{
  merge_conflict_history, retained_resolved_ids, max_retained, is_recent, is_kept,
}
use cursor_setting_sync.Protocol.Reconciler.History.{ids}
use cursor_setting_sync.Protocol.Reconciler.Retention.{is_resolved, merge-resolved}
use cursor_setting_sync.Tests.Data.{host, conflict_of}

abbrev past : SyncConflict
past = conflict_of (units "c1") (some (units "yesterday"))

abbrev present : SyncConflict
present = conflict_of (units "c2") none

the_present_is_open :
    (conflict : SyncConflict) → In conflict (present ∷ []) → conflict.resolved_at ≡ none
the_present_is_open conflict (inl e) = ap (λ (c : SyncConflict). c.resolved_at) e
the_present_is_open conflict (inr n) = absurd n

past_kept : filter is_resolved (merge_conflict_history host (past ∷ []) (present ∷ [])) ≡ past ∷ []
unfolding merge_conflict_history retained_resolved_ids is_recent is_kept filter some_of has sort
    insert list_beq
past_kept = refl

past-Distinct : Distinct (ids (past ∷ []))
unfolding has
past-Distinct = (refl, tt)

merge-resolved_example :
    (length (filter is_resolved (merge_conflict_history host (past ∷ []) (present ∷ [])))
      ≤ max_retained)
    × ((conflict : SyncConflict) (resolved_at : Text)
        → In conflict (merge_conflict_history host (past ∷ []) (present ∷ []))
        → conflict.resolved_at ≡ some resolved_at
        → In conflict (past ∷ []) × (is_recent host conflict ≡ true))
merge-resolved_example =
    merge-resolved host (past ∷ []) (present ∷ []) past-Distinct the_present_is_open

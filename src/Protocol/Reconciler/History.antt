-- ===== src/Protocol/Reconciler/History.antt =====
-- src/protocol/reconciler.ts, `mergeConflictHistory`: which conflicts the state keeps.
use cursor_setting_sync.Base.{
  ◌≡◌, refl, sym, ◌∙◌, inl, inr, none, some, List, [], ◌∷◌, map, In, In-append, In-append_left,
  In-append_right, In-filter, In-map, some_of, true, false, arith, option_eq,
}
use cursor_setting_sync.Base.Texts.{Text, text_eq}
use cursor_setting_sync.Base.Sets.{has, has-In}
use cursor_setting_sync.Types.{SyncConflict}
use cursor_setting_sync.Protocol.Reconciler.Conflicts.{
  Host, merge_conflict_history, is_kept, is_new, retained_resolved_ids,
}

abbrev pub ids : List SyncConflict → List Text
ids = map (λ conflict. conflict.conflict_id)

-- An open conflict is kept exactly if it is active.
kept-open :
    (active_ids retained_ids : List Text) (conflict : SyncConflict)
    → conflict.resolved_at ≡ none
    → is_kept active_ids retained_ids conflict ≡ has conflict.conflict_id active_ids
unfolding is_kept
kept-open active_ids retained_ids conflict e = rw e

pub kept-resolved :
    (active_ids retained_ids : List Text) (conflict : SyncConflict) (resolved_at : Text)
    → conflict.resolved_at ≡ some resolved_at
    → is_kept active_ids retained_ids conflict ≡ has conflict.conflict_id retained_ids
unfolding is_kept
kept-resolved active_ids retained_ids conflict resolved_at e = rw e

pub merge-keeps_open :
    (host : Host) (existing active : List SyncConflict) (conflict : SyncConflict)
    → In conflict existing
    → conflict.resolved_at ≡ none
    → In conflict.conflict_id (ids active)
    → In conflict (merge_conflict_history host existing active)
unfolding merge_conflict_history
merge-keeps_open host existing active conflict i e j = In-append_left conflict _ _ (
    (In-filter _ conflict existing).1 (
      i,
      kept-open (ids active) (retained_resolved_ids host existing) conflict e
          ∙ (has-In conflict.conflict_id (ids active)).1 j,
    ))

is_new_iff :
    (existing : List SyncConflict) (conflict : SyncConflict)
    → has conflict.conflict_id (ids existing) ≡ false
    → is_new existing conflict ≡ true
unfolding has some_of
is_new_iff [] conflict h = refl
is_new_iff (x ∷ xs) conflict h = ground (
  arith,
  is_new_iff xs conflict,
  text_eq.equals_iff x.conflict_id conflict.conflict_id,
  text_eq.equals_iff conflict.conflict_id x.conflict_id,
)

pub merge-keeps_new :
    (host : Host) (existing active : List SyncConflict) (conflict : SyncConflict)
    → has conflict.conflict_id (ids existing) ≡ false
    → In conflict active
    → In conflict (merge_conflict_history host existing active)
unfolding merge_conflict_history
merge-keeps_new host existing active conflict new i =
    In-append_right conflict _ _
      ((In-filter (is_new existing) conflict active).1 (i, is_new_iff existing conflict new))

-- An open conflict in the history is active: one that no resource shows any more is dropped.
pub merge-open :
    (host : Host) (existing active : List SyncConflict) (conflict : SyncConflict)
    → In conflict (merge_conflict_history host existing active)
    → conflict.resolved_at ≡ none
    → In conflict.conflict_id (ids active)
unfolding merge_conflict_history
merge-open host existing active conflict i e = elim (In-append conflict _ _ i) [
  | inl j ↦
      let (k, kept) = (In-filter _ conflict existing).0 j in
      (has-In conflict.conflict_id (ids active)).0
        (sym (kept-open (ids active) (retained_resolved_ids host existing) conflict e) ∙ kept)
  | inr j ↦
      In-map (λ (c : SyncConflict). c.conflict_id) conflict active
        ((In-filter (is_new existing) conflict active).0 j).0
]

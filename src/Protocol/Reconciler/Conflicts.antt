-- ===== src/Protocol/Reconciler/Conflicts.antt =====
-- src/protocol/reconciler.ts: conflicts, their merge base, and the history that is kept of them.
use cursor_setting_sync.Base.{
  ℕ, suc, ◌+◌, ◌*◌, Bool, false, ◌&&◌, not, Option, none, some, List, [], ◌∷◌, ◌++◌, map, leb, take,
  head?, every, some_of, filter, find, flat_map, if◌then◌else◌, ◌==◌, option_eq, list_eq, Ordering,
}
use cursor_setting_sync.Base.Texts.{Text, text_eq}
use cursor_setting_sync.Base.Maps.{get}
use cursor_setting_sync.Base.Sets.{has}
use cursor_setting_sync.Base.Sort.{sort}
use cursor_setting_sync.Types.{ResourceTip, SyncConflict, ResourceKind, settings}
use cursor_setting_sync.Protocol.Canonical.{compare_code_units}
use cursor_setting_sync.Protocol.Reconciler.Graph.{Graph}
use cursor_setting_sync.Protocol.Reconciler.Tips.{mark_parents}
use cursor_setting_sync.Protocol.Reconciler.Order.{compare_tips}

-- What the code takes from its host: `randomUUID()` and `new Date().toISOString()` at their n-th
-- call, `Date.now()`, `Date.parse` (`none` is NaN) and `localeCompare`.
pub record Host : Type 0 where
  pub random_uuid : ℕ → Text
  pub iso_date : ℕ → Text
  pub now : ℕ
  pub parse_date : Text → Option ℕ
  pub locale_compare : Text → Text → Ordering

-- The versions from which a tip descends.
unfoldable pub ancestors_of : Graph → ResourceTip → List Text
ancestors_of graph tip = mark_parents graph tip.parents []

abbrev pub tip_at : Graph → Text → List ResourceTip
tip_at graph version = elim (get graph version) [ none ↦ [] | some node ↦ node.tip ∷ [] ]

-- The versions of the first set that are in every other, as tips.
unfoldable pub common_tips : Graph → List (List Text) → List ResourceTip
common_tips graph [] = []
common_tips graph (first ∷ rest) =
    flat_map (tip_at graph) (filter (λ version. every (has version) rest) first)

abbrev pub version_of : Option ResourceTip → Option Text
version_of none = none
version_of (some tip) = some tip.version_id

-- `findCommonParent`; `none` is null.
unfoldable pub find_common_parent : List ResourceTip → Graph → Option Text
find_common_parent tips graph =
    version_of (head? (sort compare_tips (common_tips graph (map (ancestors_of graph) tips))))

-- The conflict that `find` looks for: of the resource, open, over these versions.
unfoldable pub is_open_over : Text → List Text → SyncConflict → Bool
is_open_over resource_id tip_version_ids conflict =
    conflict.resource_id == resource_id
    && conflict.resolved_at == none
    && sort compare_code_units conflict.tip_version_ids == tip_version_ids

-- `match.baseVersionId = null` where the graph has lost the base.
unfoldable pub drop_lost_base : Graph → SyncConflict → SyncConflict
drop_lost_base graph conflict = elim conflict.base_version_id [
  | none ↦ conflict
  | some base ↦ elim (get graph base) [
    | some _ ↦ conflict
    | none ↦ record conflict { base_version_id = none }
  ]
]

-- The write goes through the object that the list holds.
unfoldable pub update_first :
    (SyncConflict → Bool) → (SyncConflict → SyncConflict) → List SyncConflict → List SyncConflict
update_first p f [] = []
update_first p f (conflict ∷ rest) =
    if p conflict then f conflict ∷ rest else conflict ∷ update_first p f rest

abbrev pub kind_of_first : List ResourceTip → ResourceKind
kind_of_first [] = settings
kind_of_first (tip ∷ tips) = tip.kind

unfoldable pub new_conflict : Host → ℕ → Text → List ResourceTip → Graph → SyncConflict
new_conflict host call resource_id tips graph = record {
  conflict_id = host.random_uuid call;
  resource_id = resource_id;
  kind = kind_of_first tips;
  base_version_id = find_common_parent tips graph;
  tip_version_ids = sort compare_code_units (map (λ tip. tip.version_id) tips);
  created_at = host.iso_date call;
  resolved_at = none;
}

-- `existingOrNewConflict`: the conflict, the list with its object as it now is, and the calls of
-- `randomUUID` so far.
unfoldable pub existing_or_new_conflict :
    Host
    → ℕ
    → List SyncConflict
    → Text
    → List ResourceTip
    → Graph
    → SyncConflict × List SyncConflict × ℕ
existing_or_new_conflict host call existing resource_id tips graph =
    let tip_version_ids = sort compare_code_units (map (λ tip. tip.version_id) tips) in
    elim (find (is_open_over resource_id tip_version_ids) existing) [
      | some match ↦ (
        drop_lost_base graph match,
        update_first (is_open_over resource_id tip_version_ids) (drop_lost_base graph) existing,
        call,
      )
      | none ↦ (new_conflict host call resource_id tips graph, existing, suc call)
    ]

-- `RESOLVED_CONFLICT_RETENTION_DAYS` in milliseconds, and `MAX_RETAINED_RESOLVED_CONFLICTS`.
abbrev pub retention_ms : ℕ
retention_ms = 30 * 24 * 60 * 60 * 1000

abbrev pub max_retained : ℕ
max_retained = 200

-- `Date.parse(resolvedAt) >= Date.now() - retention`; of NaN no comparison holds.
unfoldable pub is_recent : Host → SyncConflict → Bool
is_recent host conflict = elim conflict.resolved_at [
  | none ↦ false
  | some resolved_at ↦ elim (host.parse_date resolved_at) [
    | none ↦ false
    | some time ↦ leb host.now (time + retention_ms)
  ]
]

abbrev pub text_or_empty : Option Text → Text
text_or_empty none = []
text_or_empty (some text) = text

abbrev pub newest_resolved_first : Host → SyncConflict → SyncConflict → Ordering
newest_resolved_first host left right =
    host.locale_compare (text_or_empty right.resolved_at) (text_or_empty left.resolved_at)

unfoldable pub retained_resolved_ids : Host → List SyncConflict → List Text
retained_resolved_ids host existing =
    map (λ conflict. conflict.conflict_id)
      (take max_retained (sort (newest_resolved_first host) (filter (is_recent host) existing)))

-- `conflict.resolvedAt === undefined ? activeIds.has(id) : retainedResolvedIds.has(id)`.
unfoldable pub is_kept : List Text → List Text → SyncConflict → Bool
is_kept active_ids retained_ids conflict = elim conflict.resolved_at [
  | none ↦ has conflict.conflict_id active_ids
  | some _ ↦ has conflict.conflict_id retained_ids
]

abbrev pub is_new : List SyncConflict → SyncConflict → Bool
is_new existing conflict =
    not (some_of (λ candidate. candidate.conflict_id == conflict.conflict_id) existing)

-- `mergeConflictHistory`.
unfoldable pub merge_conflict_history :
    Host → List SyncConflict → List SyncConflict → List SyncConflict
merge_conflict_history host existing active =
    filter
      (is_kept (map (λ conflict. conflict.conflict_id) active)
        (retained_resolved_ids host existing))
      existing
    ++ filter (is_new existing) active

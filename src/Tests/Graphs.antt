-- ===== src/Tests/Graphs.antt =====
-- src/protocol/reconciler.ts: the theorems on a resource's version graph, at a fork.
use cursor_setting_sync.Base.{suc, ◌≡◌, ◌⊎◌, ◌≤◌, ◌↔◌, none, some, [], ◌∷◌, In}
use cursor_setting_sync.Base.Texts.{Text, units, text_eq}
use cursor_setting_sync.Base.Maps.{values}
use cursor_setting_sync.Protocol.Reconciler.Graph.{VersionNode}
use cursor_setting_sync.Protocol.Reconciler.Ancestors.{Ancestor, mark_ancestors_iff}
use cursor_setting_sync.Protocol.Reconciler.Walk.{
  mark_ancestors, walk, links_left, walk-mark_ancestors,
}
use cursor_setting_sync.Protocol.Reconciler.Tips.{calculate_tips, calculate_tips_iff}
use cursor_setting_sync.Protocol.Reconciler.Conflicts.{find_common_parent}
use cursor_setting_sync.Protocol.Reconciler.Bases.{IsCommon, find_common_parent-newest}
use cursor_setting_sync.Tests.Data.{edit_here, edit_there, forked_graph}

mark_ancestors_iff_example :
    (In (units "e1") (mark_ancestors (units "e2") forked_graph [])
      → In (units "e1") [] ⊎ Ancestor forked_graph (units "e2") (units "e1"))
    × (In (units "e1") [] ⊎ Ancestor forked_graph (units "e2") (units "e1")
        → In (units "e1") (mark_ancestors (units "e2") forked_graph []))
mark_ancestors_iff_example =
    mark_ancestors_iff forked_graph (units "e2") (units "e1") [] (λ w u i p. absurd i)

walk-mark_ancestors_example :
    walk (suc (links_left forked_graph [])) forked_graph (units "e2" ∷ []) []
    ≡ some (mark_ancestors (units "e2") forked_graph [])
walk-mark_ancestors_example = walk-mark_ancestors (units "e2") forked_graph []

calculate_tips_iff_example : In edit_here (calculate_tips forked_graph) ↔ (
    (node : VersionNode) × In node (values forked_graph)
    × (node.tip ≡ edit_here)
    × ((child : VersionNode) → In child (values forked_graph) → ¬ In (units "e2") child.parents))
calculate_tips_iff_example = calculate_tips_iff forked_graph edit_here

find_common_parent-newest_example :
    ((version : Text)
      → find_common_parent (edit_here ∷ edit_there ∷ []) forked_graph ≡ some version
      → (v : Text) × (node : VersionNode) × (node.tip.version_id ≡ version)
        × IsCommon forked_graph (edit_here ∷ edit_there ∷ []) v node
        × ((other : Text) (rival : VersionNode)
            → IsCommon forked_graph (edit_here ∷ edit_there ∷ []) other rival
            → rival.tip.lamport ≤ node.tip.lamport))
    × (find_common_parent (edit_here ∷ edit_there ∷ []) forked_graph ≡ none
        → (version : Text) (node : VersionNode)
        → ¬ IsCommon forked_graph (edit_here ∷ edit_there ∷ []) version node)
find_common_parent-newest_example =
    find_common_parent-newest forked_graph edit_here (edit_there ∷ [])

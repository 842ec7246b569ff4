-- ===== src/Protocol/Reconciler/Bases.antt =====
-- src/protocol/reconciler.ts, `findCommonParent`: the merge base of a conflict.
use cursor_setting_sync.Base.{
  ◌≤◌, ◌<◌, length, ◌≡◌, refl, sym, ap, ◌∙◌, subst, ◌↔◌, ◌⊎◌, inl, inr, none, some, List, [], ◌∷◌,
  map, arith, In, filter, In-filter, In-map, In-map_inv, In-flat_map, every, every-In, every_of_In,
  head?, Option-cases,
}
use cursor_setting_sync.Base.Texts.{Text, text_eq}
use cursor_setting_sync.Base.Maps.{get}
use cursor_setting_sync.Base.Sets.{has, has-In}
use cursor_setting_sync.Base.Sort.{sort, head-sort, sort_total}
use cursor_setting_sync.Types.{ResourceTip}
use cursor_setting_sync.Protocol.Reconciler.Graph.{Graph, VersionNode}
use cursor_setting_sync.Protocol.Reconciler.Ancestors.{
  Ancestor, Closed, mark_ancestors_iff, mark_ancestors-Closed,
}
use cursor_setting_sync.Protocol.Reconciler.Walk.{mark_ancestors}
use cursor_setting_sync.Protocol.Reconciler.Tips.{mark_parents}
use cursor_setting_sync.Protocol.Reconciler.Order.{
  compare_tips, compare_tips-IsComparator, compare_tips-lamport,
}
use cursor_setting_sync.Protocol.Reconciler.Conflicts.{
  ancestors_of, common_tips, tip_at, find_common_parent,
}

In-length : (x : ResourceTip) (xs : List ResourceTip) → In x xs → 0 < length xs
In-length x [] i = absurd i
In-length x (y ∷ ys) i = omega arith

module _ (graph : Graph) where
  tip_at_inv :
      (version : Text) (m : ResourceTip)
      → In m (tip_at graph version)
      → (node : VersionNode) × (get graph version ≡ some node) × (node.tip ≡ m)
  tip_at_inv version m i = elim (Option-cases (get graph version)) [
    | inl n ↦ absurd (ground (arith, n, i))
    | inr (node, e) ↦ (node, e, ground (arith, e, i))
  ]

  tip_at_of :
      (version : Text) (node : VersionNode) (m : ResourceTip)
      → get graph version ≡ some node
      → node.tip ≡ m
      → In m (tip_at graph version)
  tip_at_of version node m e q = ground arith

  mark_parents_iff :
      (a : Text) (parents xs : List Text)
      → Closed graph [] xs
      → In a (mark_parents graph parents xs)
        ↔ (In a xs ⊎ ((p : Text) × In p parents × Ancestor graph p a))
  unfolding mark_parents
  mark_parents_iff a [] xs h = (λ i. inl i, λ s. elim s [ inl i ↦ i | inr (p, i, r) ↦ absurd i ])
  mark_parents_iff a (p ∷ ps) xs h =
      first (mark_parents_iff a ps (mark_ancestors p graph xs) (mark_ancestors-Closed graph p xs h))
    where
      first :
          (In a (mark_parents graph ps (mark_ancestors p graph xs))
            ↔ (In a (mark_ancestors p graph xs) ⊎ ((q : Text) × In q ps × Ancestor graph q a)))
          → (In a (mark_parents graph ps (mark_ancestors p graph xs))
              ↔ (In a xs ⊎ ((q : Text) × In q (p ∷ ps) × Ancestor graph q a)))
      first rest = (λ i. to (rest.0 i), λ s. rest.1 (from s))
        where
          here :
              (In a (mark_ancestors p graph xs) → In a xs ⊎ Ancestor graph p a)
              × (In a xs ⊎ Ancestor graph p a → In a (mark_ancestors p graph xs))
          here = mark_ancestors_iff graph p a xs h

          to :
              In a (mark_ancestors p graph xs) ⊎ ((q : Text) × In q ps × Ancestor graph q a)
              → In a xs ⊎ ((q : Text) × In q (p ∷ ps) × Ancestor graph q a)
          to (inl i) = elim (here.0 i) [ inl j ↦ inl j | inr r ↦ inr (p, inl refl, r) ]
          to (inr (q, i, r)) = inr (q, inr i, r)

          from :
              In a xs ⊎ ((q : Text) × In q (p ∷ ps) × Ancestor graph q a)
              → In a (mark_ancestors p graph xs) ⊎ ((q : Text) × In q ps × Ancestor graph q a)
          from (inl i) = inl (here.1 (inl i))
          from (inr (q, inl e, r)) =
              inl (here.1 (inr (subst (λ (z : Text). Ancestor graph z a) e r)))
          from (inr (q, inr i, r)) = inr (q, i, r)

  -- The tip descends from the version.
  abbrev pub Descends : ResourceTip → Text → Type 0
  Descends tip version = (p : Text) × In p tip.parents × Ancestor graph p version

  ancestors_of_iff :
      (tip : ResourceTip) (version : Text)
      → In version (ancestors_of graph tip) ↔ Descends tip version
  unfolding ancestors_of
  ancestors_of_iff tip version =
      let m = mark_parents_iff version tip.parents [] (λ w u i p. absurd i) in
      (λ i. elim (m.0 i) [ inl n ↦ absurd n | inr d ↦ d ], λ d. m.1 (inr d))

  -- The node is in the graph, and every tip descends from it.
  abbrev pub IsCommon : List ResourceTip → Text → VersionNode → Type 0
  IsCommon tips version node =
      (get graph version ≡ some node) × ((tip : ResourceTip) → In tip tips → Descends tip version)

  common_tips_iff :
      (t : ResourceTip) (ts : List ResourceTip) (m : ResourceTip)
      → In m (common_tips graph (map (ancestors_of graph) (t ∷ ts))) ↔ (
          (version : Text) × (node : VersionNode) × (node.tip ≡ m) × IsCommon (t ∷ ts) version node)
  unfolding common_tips
  common_tips_iff t ts m = (to, from)
    where
      first : List Text
      first = ancestors_of graph t

      rest : List (List Text)
      rest = map (ancestors_of graph) ts

      to :
          In m (common_tips graph (map (ancestors_of graph) (t ∷ ts)))
          → (version : Text) × (node : VersionNode) × (node.tip ≡ m)
            × IsCommon (t ∷ ts) version node
      to i =
          let (version, j, k) =
            (In-flat_map (tip_at graph) m (filter (λ v. every (has v) rest) first)).0 i in
          let (l, every_rest) = (In-filter (λ (v : Text). every (has v) rest) version first).0 j in
          let (node, e, q) = tip_at_inv version m k in
          (
            version,
            node,
            q,
            (
              e,
              λ tip n. elim n [
                | inl p ↦
                    subst (λ (z : ResourceTip). Descends z version) (sym p)
                      ((ancestors_of_iff t version).0 l)
                | inr o ↦ (ancestors_of_iff tip version).0 (
                    (has-In version (ancestors_of graph tip)).0 (
                      every-In (has version) (ancestors_of graph tip) rest every_rest
                        (In-map (ancestors_of graph) tip ts o)))
              ],
            ),
          )

      from :
          (version : Text) × (node : VersionNode) × (node.tip ≡ m) × IsCommon (t ∷ ts) version node
          → In m (common_tips graph (map (ancestors_of graph) (t ∷ ts)))
      from (version, node, q, (e, all)) =
          (In-flat_map (tip_at graph) m (filter (λ v. every (has v) rest) first)).1 (
            version,
            (In-filter (λ (v : Text). every (has v) rest) version first).1 (
              (ancestors_of_iff t version).1 (all t (inl refl)),
              every_of_In (has version) rest (λ set i.
                  let (tip, j, p) = In-map_inv (ancestors_of graph) set ts i in
                  (has-In version set).1
                    (subst (In version) p ((ancestors_of_iff tip version).1 (all tip (inr j))))),
            ),
            tip_at_of version node m e q,
          )

  -- The merge base of a conflict is a version of the graph from which every tip descends, and of all
  -- such versions none has a higher Lamport time. Where the graph holds no such version there is none.
  pub find_common_parent-newest :
      (t : ResourceTip) (ts : List ResourceTip)
      → ((base : Text)
          → find_common_parent (t ∷ ts) graph ≡ some base
          → (version : Text) × (node : VersionNode) × (node.tip.version_id ≡ base)
            × IsCommon (t ∷ ts) version node
            × ((other : Text) (rival : VersionNode)
                → IsCommon (t ∷ ts) other rival
                → rival.tip.lamport ≤ node.tip.lamport))
        × (find_common_parent (t ∷ ts) graph ≡ none
            → (version : Text) (node : VersionNode) → ¬ IsCommon (t ∷ ts) version node)
  unfolding find_common_parent
  find_common_parent-newest t ts = (found, missing)
    where
      tips : List ResourceTip
      tips = common_tips graph (map (ancestors_of graph) (t ∷ ts))

      found :
          (base : Text)
          → find_common_parent (t ∷ ts) graph ≡ some base
          → (version : Text) × (node : VersionNode) × (node.tip.version_id ≡ base)
            × IsCommon (t ∷ ts) version node
            × ((other : Text) (rival : VersionNode)
                → IsCommon (t ∷ ts) other rival
                → rival.tip.lamport ≤ node.tip.lamport)
      found base h = elim (Option-cases (head? (sort compare_tips tips))) [
        | inl n ↦ absurd (ground (arith, n))
        | inr (m, e) ↦
            let (i, least) = head-sort compare_tips-IsComparator tips m e in
            let (version, node, q, c) = (common_tips_iff t ts m).0 i in
            (
              version,
              node,
              ap (λ (z : ResourceTip). z.version_id) q ∙ ground (arith, e),
              c,
              λ other rival d.
                  subst (λ (z : ResourceTip). rival.tip.lamport ≤ z.lamport) (sym q)
                    (compare_tips-lamport m rival.tip (
                      least rival.tip
                        ((common_tips_iff t ts rival.tip).1 (other, rival, refl, d)))),
            )
      ]

      missing :
          find_common_parent (t ∷ ts) graph ≡ none
          → (version : Text) (node : VersionNode) → ¬ IsCommon (t ∷ ts) version node
      missing h version node c =
          let i = (common_tips_iff t ts node.tip).1 (version, node, refl, c) in
          let (m, e) = sort_total compare_tips tips (In-length node.tip tips i) in
          absurd (ground (arith, e))

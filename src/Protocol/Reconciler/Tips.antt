-- ===== src/Protocol/Reconciler/Tips.antt =====
-- src/protocol/reconciler.ts, `calculateTips`.
use cursor_setting_sync.Base.{
  ◌≡◌, refl, sym, subst, ap, ◌↔◌, ◌⊎◌, inl, inr, Bool, true, not, Option, none, some, List, [], ◌∷◌,
  map, arith, In, filter, In-filter, In-map, In-map_inv, Bool-cases,
}
use cursor_setting_sync.Base.Texts.{Text, text_eq}
use cursor_setting_sync.Base.Maps.{get, values, get-values}
use cursor_setting_sync.Base.Sets.{has, has-In}
use cursor_setting_sync.Base.Sort.{sort, In-sort}
use cursor_setting_sync.Types.{ResourceTip}
use cursor_setting_sync.Protocol.Reconciler.Graph.{Graph, VersionNode}
use cursor_setting_sync.Protocol.Reconciler.Ancestors.{mark_ancestors-keeps, mark_ancestors-sound}
use cursor_setting_sync.Protocol.Reconciler.Walk.{mark_ancestors, parents_of}
use cursor_setting_sync.Protocol.Reconciler.Order.{compare_tips}

unfoldable pub mark_parents : Graph → List Text → List Text → List Text
mark_parents graph [] ancestors = ancestors
mark_parents graph (parent ∷ parents) ancestors =
    mark_parents graph parents (mark_ancestors parent graph ancestors)

unfoldable pub mark_nodes : Graph → List VersionNode → List Text → List Text
mark_nodes graph [] ancestors = ancestors
mark_nodes graph (node ∷ nodes) ancestors =
    mark_nodes graph nodes (mark_parents graph node.parents ancestors)

unfoldable pub calculate_tips : Graph → List ResourceTip
calculate_tips graph =
    let ancestors = mark_nodes graph (values graph) [] in
    sort compare_tips (
      map (λ node. node.tip)
        (filter (λ node. not (has node.tip.version_id ancestors)) (values graph)))

mark_parents-keeps :
    (graph : Graph) (parents xs : List Text) (a : Text)
    → In a xs ⊎ In a parents
    → In a (mark_parents graph parents xs)
unfolding mark_parents
mark_parents-keeps graph [] xs a (inl i) = i
mark_parents-keeps graph [] xs a (inr i) = absurd i
mark_parents-keeps graph (p ∷ ps) xs a h =
    mark_parents-keeps graph ps (mark_ancestors p graph xs) a
      (ground (arith, mark_ancestors-keeps graph p a xs))

mark_nodes-keeps :
    (graph : Graph) (nodes : List VersionNode) (xs : List Text) (a : Text)
    → In a xs ⊎ ((node : VersionNode) × In node nodes × In a node.parents)
    → In a (mark_nodes graph nodes xs)
unfolding mark_nodes
mark_nodes-keeps graph [] xs a (inl i) = i
mark_nodes-keeps graph [] xs a (inr (node, i, p)) = absurd i
mark_nodes-keeps graph (n ∷ ns) xs a (inl i) =
    mark_nodes-keeps graph ns _ a (inl (mark_parents-keeps graph n.parents xs a (inl i)))
mark_nodes-keeps graph (n ∷ ns) xs a (inr (node, inl e, p)) = mark_nodes-keeps graph ns _ a (
    inl (
      mark_parents-keeps graph n.parents xs a
        (inr (subst (λ (z : VersionNode). In a z.parents) e p))))
mark_nodes-keeps graph (n ∷ ns) xs a (inr (node, inr i, p)) =
    mark_nodes-keeps graph ns _ a (inr (node, i, p))

module _ (graph : Graph) where
  -- Some version of the graph names `a` as a parent.
  abbrev pub HasChild : Text → Type 0
  HasChild a = (node : VersionNode) × In node (values graph) × In a node.parents

module _ (graph : Graph) where
  pass : (w u : Text) → HasChild graph w → In u (parents_of graph w) → HasChild graph u
  unfolding parents_of
  pass w u h i = up (get graph w) refl i
    where
      up :
          (found : Option VersionNode)
          → get graph w ≡ found
          → In u (elim found [ none ↦ [] | some node ↦ node.parents ])
          → HasChild graph u
      up none e j = absurd j
      up (some node) e j = (node, get-values graph w node e, j)

  mark_parents_sound :
      (parents xs : List Text)
      → ((b : Text) → In b parents → HasChild graph b)
      → ((b : Text) → In b xs → HasChild graph b)
      → (a : Text) → In a (mark_parents graph parents xs)
      → HasChild graph a
  unfolding mark_parents
  mark_parents_sound [] xs hp hx = hx
  mark_parents_sound (p ∷ ps) xs hp hx =
      mark_parents_sound ps (mark_ancestors p graph xs) (λ b i. hp b (inr i))
        (mark_ancestors-sound graph (HasChild graph) pass p xs (hp p (inl refl)) hx)

  mark_nodes_sound :
      (nodes : List VersionNode) (xs : List Text)
      → ((n : VersionNode) → In n nodes → In n (values graph))
      → ((b : Text) → In b xs → HasChild graph b)
      → (a : Text) → In a (mark_nodes graph nodes xs)
      → HasChild graph a
  unfolding mark_nodes
  mark_nodes_sound [] xs sub hx = hx
  mark_nodes_sound (n ∷ ns) xs sub hx =
      mark_nodes_sound ns (mark_parents graph n.parents xs) (λ m i. sub m (inr i))
        (mark_parents_sound n.parents xs (λ b i. (n, sub n (inl refl), i)) hx)

  -- What the walks mark is what some version names as a parent: the way up adds nothing.
  mark_nodes_iff : (a : Text) → In a (mark_nodes graph (values graph) []) ↔ HasChild graph a
  mark_nodes_iff a = (
    mark_nodes_sound (values graph) [] (λ n i. i) (λ b i. absurd i) a,
    λ h. mark_nodes-keeps graph (values graph) [] a (inr h),
  )

  unnamed :
      (a : Text)
      → ((child : VersionNode) → In child (values graph) → ¬ In a child.parents)
      → not (has a (mark_nodes graph (values graph) [])) ≡ true
  unnamed a h = elim (Bool-cases (has a (mark_nodes graph (values graph) []))) [
    | inl t ↦
        let (child, l, p) =
          (mark_nodes_iff a).0 ((has-In a (mark_nodes graph (values graph) [])).0 t) in
        absurd (h child l p)
    | inr f ↦ ap not f
  ]

  -- The tips are exactly the versions that no version of the resource names as a parent.
  pub calculate_tips_iff :
      (tip : ResourceTip)
      → In tip (calculate_tips graph) ↔ (
          (node : VersionNode) × In node (values graph)
          × (node.tip ≡ tip)
          × ((child : VersionNode) → In child (values graph) → ¬ In tip.version_id child.parents))
  unfolding calculate_tips
  calculate_tips_iff tip = (to, from)
    where
      marked : List Text
      marked = mark_nodes graph (values graph) []

      keeps : VersionNode → Bool
      keeps node = not (has node.tip.version_id marked)

      to :
          In tip (calculate_tips graph)
          → (node : VersionNode) × In node (values graph)
            × (node.tip ≡ tip)
            × ((child : VersionNode) → In child (values graph) → ¬ In tip.version_id child.parents)
      to i =
          let (node, j, e) =
            In-map_inv (λ (n : VersionNode). n.tip) tip (filter keeps (values graph))
              ((In-sort compare_tips tip _).0 i) in
          let (k, new) = (In-filter keeps node (values graph)).0 j in
          (
            node,
            k,
            e,
            λ child l p.
                let there = (has-In node.tip.version_id marked).1 (
                  (mark_nodes_iff node.tip.version_id).1 (
                    child,
                    l,
                    subst (λ (t : ResourceTip). In t.version_id child.parents) (sym e) p,
                  )) in
                absurd (ground (arith, there, new)),
          )

      from :
          (node : VersionNode) × In node (values graph)
            × (node.tip ≡ tip)
            × ((child : VersionNode) → In child (values graph) → ¬ In tip.version_id child.parents)
          → In tip (calculate_tips graph)
      from (node, k, e, h) = (In-sort compare_tips tip _).1 (
          subst
            (λ (t : ResourceTip).
              In t (map (λ (n : VersionNode). n.tip) (filter keeps (values graph))))
            e
            (In-map (λ (n : VersionNode). n.tip) node (filter keeps (values graph))
              ((In-filter keeps node (values graph)).1 (
                k,
                unnamed node.tip.version_id (λ child l p.
                    h child l (subst (λ (t : ResourceTip). In t.version_id child.parents) e p)),
              ))))

-- ===== src/Protocol/Reconciler/Ancestors.antt =====
-- src/protocol/reconciler.ts, `markAncestors`: the marks against what a version descends from.
use cursor_setting_sync.Base.{
  ℕ, zero, suc, ◌≡◌, refl, sym, subst, ◌∙◌, ◌⊎◌, inl, inr, true, false, some, List, [], ◌∷◌, arith,
  In, Bool-cases,
}
use cursor_setting_sync.Base.Texts.{Text, text_eq}
use cursor_setting_sync.Base.Sets.{has, add, has-In, In-add}
use cursor_setting_sync.Protocol.Reconciler.Graph.{Graph}
use cursor_setting_sync.Protocol.Reconciler.Walk.{
  parents_of, push_all, walk, links_left, mark_ancestors, In-push_all, walk_marked, walk_new,
  walk-mark_ancestors,
}

-- What each round keeps holds of the result.
module _ (graph : Graph) (Inv : List Text → List Text → Type 0) where
  module _
      (skip : (c : Text) (pending xs : List Text)
        → has c xs ≡ true
        → Inv (c ∷ pending) xs
        → Inv pending xs)
      (mark : (c : Text) (pending xs : List Text)
        → has c xs ≡ false
        → Inv (c ∷ pending) xs
        → Inv (push_all (parents_of graph c) pending) (add c xs)) where
    walk_only :
        (fuel : ℕ) (pending xs marked : List Text)
        → walk fuel graph pending xs ≡ some marked
        → Inv pending xs
        → Inv [] marked
    walk_only zero [] xs marked e h =
        let same : xs ≡ marked = unfold walk in ground arith in subst (Inv []) same h
    walk_only (suc fuel) [] xs marked e h =
        let same : xs ≡ marked = unfold walk in ground arith in subst (Inv []) same h
    walk_only zero (c ∷ pending) xs marked e h = absurd (unfold walk in ground arith)
    walk_only (suc fuel) (c ∷ pending) xs marked e h = elim (Bool-cases (has c xs)) [
      | inl t ↦
          walk_only fuel pending xs marked (sym (walk_marked fuel graph c pending xs t) ∙ e)
            (skip c pending xs t h)
      | inr f ↦
          walk_only fuel (push_all (parents_of graph c) pending) (add c xs) marked
            (sym (walk_new fuel graph c pending xs f) ∙ e) (mark c pending xs f h)
    ]

    mark_ancestors_only :
        (version : Text) (xs : List Text)
        → Inv (version ∷ []) xs
        → Inv [] (mark_ancestors version graph xs)
    mark_ancestors_only version xs =
        walk_only (suc (links_left graph xs)) (version ∷ []) xs (mark_ancestors version graph xs)
          (walk-mark_ancestors version graph xs)

module _ (graph : Graph) where
  -- A version and what it descends from.
  pub data Ancestor (version : Text) : Text → Type 0 where
    self : Ancestor version version
    up : {w u : Text} → Ancestor version w → In u (parents_of graph w) → Ancestor version u

  -- Every parent of a marked version is marked, or waits on the stack.
  abbrev pub Closed : List Text → List Text → Type 0
  Closed pending xs = (w u : Text) → In w xs → In u (parents_of graph w) → In u xs ⊎ In u pending

  -- What is marked or waits ends up marked.
  pub mark_ancestors-keeps :
      (version a : Text) (xs : List Text)
      → (a ≡ version) ⊎ In a xs
      → In a (mark_ancestors version graph xs)
  mark_ancestors-keeps version a xs h = ground (
    arith,
    mark_ancestors_only graph (λ pending marked. In a marked ⊎ In a pending)
        (λ c pending ys t k. ground (arith, has-In c ys))
        (λ c pending ys f k.
          ground (arith, In-add a c ys, In-push_all a (parents_of graph c) pending))
        version xs (ground arith),
  )

  -- Nothing else is marked: a property of the versions that passes to parents holds of all marked.
  pub mark_ancestors-sound :
      (P : Text → Type 0)
      → ((w u : Text) → P w → In u (parents_of graph w) → P u)
      → (version : Text) (xs : List Text) → P version
      → ((a : Text) → In a xs → P a)
      → (a : Text) → In a (mark_ancestors version graph xs)
      → P a
  mark_ancestors-sound P pass version xs hv hx a i =
      mark_ancestors_only graph (λ pending marked. (b : Text) → In b marked ⊎ In b pending → P b)
        (λ c pending ys t k b j. k b (ground arith))
        (λ c pending ys f k b j. push c pending ys k b j) version xs (λ b j. start b j) a (inl i)
    where
      start : (b : Text) → In b xs ⊎ In b (version ∷ []) → P b
      start b (inl j) = hx b j
      start b (inr (inl e)) = subst P (sym e) hv
      start b (inr (inr n)) = absurd n

      push :
          (c : Text) (pending ys : List Text)
          → ((b : Text) → In b ys ⊎ In b (c ∷ pending) → P b)
          → (b : Text) → In b (add c ys) ⊎ In b (push_all (parents_of graph c) pending)
          → P b
      push c pending ys k b (inl j) = elim ((In-add b c ys).0 j) [
        | inl old ↦ k b (inl old)
        | inr e ↦ k b (inr (inl e))
      ]
      push c pending ys k b (inr j) = elim ((In-push_all b (parents_of graph c) pending).0 j) [
        | inl p ↦ pass c b (k c (inr (inl refl))) p
        | inr p ↦ k b (inr (inr p))
      ]

  -- The marks stay closed under parents.
  pub mark_ancestors-Closed :
      (version : Text) (xs : List Text) → Closed [] xs → Closed [] (mark_ancestors version graph xs)
  mark_ancestors-Closed version xs h =
      mark_ancestors_only graph Closed
        (λ c pending ys t k w u i p. ground (arith, k w u i p, has-In c ys))
        (λ c pending ys f k w u i p. push c pending ys k w u ((In-add w c ys).0 i) p) version xs
        (λ w u i p. ground (arith, h w u i p))
    where
      push :
          (c : Text) (pending ys : List Text)
          → Closed (c ∷ pending) ys
          → (w u : Text) → In w ys ⊎ (w ≡ c)
          → In u (parents_of graph w)
          → In u (add c ys) ⊎ In u (push_all (parents_of graph c) pending)
      push c pending ys k w u (inl i) p =
          ground (arith, k w u i p, In-add u c ys, In-push_all u (parents_of graph c) pending)
      push c pending ys k w u (inr e) p = inr (
          (In-push_all u (parents_of graph c) pending).1
            (inl (subst (λ z. In u (parents_of graph z)) e p)))

  Closed-Ancestor : (xs : List Text) (v w : Text) → Closed [] xs → In v xs → Ancestor v w → In w xs
  Closed-Ancestor xs v w h i self = i
  Closed-Ancestor xs v u h i (up {w = w} r p) =
      ground (arith, h w u (Closed-Ancestor xs v w h i r) p)

  -- To marks that are closed under parents, `markAncestors` adds the version and all that it descends
  -- from, and nothing else.
  pub mark_ancestors_iff :
      (version a : Text) (xs : List Text)
      → Closed [] xs
      → (In a (mark_ancestors version graph xs) → In a xs ⊎ Ancestor version a)
        × (In a xs ⊎ Ancestor version a → In a (mark_ancestors version graph xs))
  mark_ancestors_iff version a xs h = (to, from)
    where
      pass :
          (w u : Text)
          → In w xs ⊎ Ancestor version w
          → In u (parents_of graph w)
          → In u xs ⊎ Ancestor version u
      pass w u (inl i) p = ground (arith, h w u i p)
      pass w u (inr r) p = inr (up r p)

      to : In a (mark_ancestors version graph xs) → In a xs ⊎ Ancestor version a
      to =
          mark_ancestors-sound (λ b. In b xs ⊎ Ancestor version b) pass version xs (inr self)
            (λ b j. inl j) a

      from : In a xs ⊎ Ancestor version a → In a (mark_ancestors version graph xs)
      from (inl i) = mark_ancestors-keeps version a xs (inr i)
      from (inr r) =
          Closed-Ancestor (mark_ancestors version graph xs) version a
            (mark_ancestors-Closed version xs h)
            (mark_ancestors-keeps version version xs (inl refl)) r

-- ===== src/Protocol/Reconciler/Walk.antt =====
-- src/protocol/reconciler.ts, `markAncestors`: the walk over an explicit stack, and its fuel.
use cursor_setting_sync.Base.{
  ℕ, zero, suc, ◌+◌, ◌≤◌, ◌≡◌, refl, ◌↔◌, ◌⊎◌, inl, inr, true, false, Option, none, some, List, [],
  ◌∷◌, arith, length, In, Bool-cases, if◌then◌else◌,
}
use cursor_setting_sync.Base.Texts.{Text, text_eq}
use cursor_setting_sync.Base.Maps.{get}
use cursor_setting_sync.Base.Sets.{has, add, has-In, In-add}
use cursor_setting_sync.Protocol.Reconciler.Graph.{Graph}

-- The parents of a version; of a version that is not in the graph, none.
unfoldable pub parents_of : Graph → Text → List Text
parents_of graph version = elim (get graph version) [ none ↦ [] | some node ↦ node.parents ]

-- `pending.push(...parents)`. The top of the stack is the head.
unfoldable pub push_all : List Text → List Text → List Text
push_all [] pending = pending
push_all (parent ∷ parents) pending = push_all parents (parent ∷ pending)

unfoldable pub walk : ℕ → Graph → List Text → List Text → Option (List Text)
walk fuel graph [] ancestors = some ancestors
walk zero graph (current ∷ pending) ancestors = none
walk (suc fuel) graph (current ∷ pending) ancestors = elim (has current ancestors) [
  | true ↦ walk fuel graph pending ancestors
  | false ↦ walk fuel graph (push_all (parents_of graph current) pending) (add current ancestors)
]

-- The links that a walk can still follow.
unfoldable pub links_left : Graph → List Text → ℕ
links_left [] ancestors = 0
links_left ((version, node) ∷ graph) ancestors =
    let rest = links_left graph ancestors in
    if has version ancestors then rest else length node.parents + rest

abbrev pub or_same : List Text → Option (List Text) → List Text
or_same ancestors none = ancestors
or_same ancestors (some marked) = marked

unfoldable pub mark_ancestors : Text → Graph → List Text → List Text
mark_ancestors version graph ancestors =
    or_same ancestors (walk (suc (links_left graph ancestors)) graph (version ∷ []) ancestors)

pub length-push_all : (xs ys : List Text) → length (push_all xs ys) ≡ length xs + length ys
unfolding push_all
length-push_all [] ys = omega arith
length-push_all (x ∷ xs) ys = omega (arith, length-push_all xs (x ∷ ys))

pub In-push_all : (a : Text) (xs ys : List Text) → In a (push_all xs ys) ↔ (In a xs ⊎ In a ys)
unfolding push_all
In-push_all a [] ys = (λ h. inr h, λ h. ground arith)
In-push_all a (x ∷ xs) ys =
    (λ h. ground (arith, In-push_all a xs (x ∷ ys)), λ h. ground (arith, In-push_all a xs (x ∷ ys)))

pub has-add :
    (b a : Text) (xs : List Text)
    → has b (add a xs) ≡ (if text_eq.equals b a then true else has b xs)
has-add b a xs =
    ground (arith, text_eq.equals_iff b a, In-add b a xs, has-In b (add a xs), has-In b xs)

pub links_left-add_le :
    (graph : Graph) (a : Text) (xs : List Text) → links_left graph (add a xs) ≤ links_left graph xs
unfolding links_left
links_left-add_le [] a xs = omega arith
links_left-add_le ((v, node) ∷ graph) a xs =
    ground (arith, has-add v a xs, links_left-add_le graph a xs)

pub links_left-add :
    (graph : Graph) (a : Text) (xs : List Text)
    → has a xs ≡ false
    → length (parents_of graph a) + links_left graph (add a xs) ≤ links_left graph xs
unfolding links_left parents_of get
links_left-add [] a xs h = omega arith
links_left-add ((v, node) ∷ graph) a xs h = ground (
  arith,
  text_eq.equals_iff v a,
  has-add v a xs,
  links_left-add_le graph a xs,
  links_left-add graph a xs,
)

pub walk_marked :
    (fuel : ℕ) (graph : Graph) (c : Text) (pending xs : List Text)
    → has c xs ≡ true
    → walk (suc fuel) graph (c ∷ pending) xs ≡ walk fuel graph pending xs
unfolding walk
walk_marked fuel graph c pending xs h = rw (h, walk)

pub walk_new :
    (fuel : ℕ) (graph : Graph) (c : Text) (pending xs : List Text)
    → has c xs ≡ false
    → walk (suc fuel) graph (c ∷ pending) xs
      ≡ walk fuel graph (push_all (parents_of graph c) pending) (add c xs)
unfolding walk
walk_new fuel graph c pending xs h = rw (h, walk)

-- The walk ends: a link is followed once.
pub walk_total :
    (fuel : ℕ) (graph : Graph) (pending xs : List Text)
    → length pending + links_left graph xs ≤ fuel
    → (marked : List Text) × (walk fuel graph pending xs ≡ some marked)
walk_total zero graph [] xs h = (xs, unfold walk in refl)
walk_total (suc fuel) graph [] xs h = (xs, unfold walk in refl)
walk_total zero graph (c ∷ pending) xs h = absurd (omega arith)
walk_total (suc fuel) graph (c ∷ pending) xs h = elim (Bool-cases (has c xs)) [
  | inl t ↦
      rw (walk_marked fuel graph c pending xs t) (walk_total fuel graph pending xs (omega arith))
  | inr f ↦ rw (walk_new fuel graph c pending xs f) (
      walk_total fuel graph (push_all (parents_of graph c) pending) (add c xs)
        (omega (arith, links_left-add graph c xs f, length-push_all (parents_of graph c) pending)))
]

-- With one round more than there are links of versions not yet marked, the walk ends, on any graph,
-- and `mark_ancestors` is its result.
pub walk-mark_ancestors :
    (version : Text) (graph : Graph) (xs : List Text)
    → walk (suc (links_left graph xs)) graph (version ∷ []) xs
      ≡ some (mark_ancestors version graph xs)
unfolding mark_ancestors
walk-mark_ancestors version graph xs =
    let (marked, e) =
      walk_total (suc (links_left graph xs)) graph (version ∷ []) xs (omega arith) in
    rw e

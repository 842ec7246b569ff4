-- ===== src/Protocol/Reconciler/Election.antt =====
-- src/protocol/reconciler.ts: which tip `chooseActiveTip` elects.
use cursor_setting_sync.Base.{
  ◌≤◌, ◌<◌, ◌≡◌, ◌≢◌, refl, sym, ◌∙◌, subst, ◌↔◌, ◌⊎◌, inl, inr, true, false, some, List, [], ◌∷◌,
  arith, ltb, length, In, head?, filter, In-filter, Bool-cases, ◌==◌, ltb→lt,
}
use cursor_setting_sync.Base.Sort.{sort, is_gt, head-sort, head-sort_unique, sort_total}
use cursor_setting_sync.Types.{ResourceTip, ResourceOperation, put, delete, operation_eq}
use cursor_setting_sync.Protocol.Reconciler.Order.{
  compare_tips, compare_tips-IsComparator, compare_tips-eq, candidates, choose_active_tip,
  compare_tips-lamport,
}

abbrev updates_of : List ResourceTip → List ResourceTip
updates_of = filter (λ tip. tip.operation == put)

put≢delete : put ≢ delete
put≢delete h = ground arith

updates-In :
    (tips : List ResourceTip) (t : ResourceTip)
    → In t (updates_of tips) ↔ (In t tips × (t.operation ≡ put))
updates-In tips t =
    let f = In-filter (λ (tip : ResourceTip). tip.operation == put) t tips in
    (
      λ i. let (j, e) = f.0 i in (j, (operation_eq.equals_iff t.operation put).0 e),
      λ h. f.1 (h.0, (operation_eq.equals_iff t.operation put).1 h.1),
    )

first-In : (xs : List ResourceTip) → 0 < length xs → (x : ResourceTip) × In x xs
first-In [] h = absurd (omega arith)
first-In (x ∷ xs) h = (x, inl refl)

In-length : (x : ResourceTip) (xs : List ResourceTip) → In x xs → 0 < length xs
In-length x [] i = absurd i
In-length x (y ∷ ys) i = omega arith

only_deletes :
    (tips : List ResourceTip) (u : ResourceTip)
    → ltb 0 (length (updates_of tips)) ≡ false
    → In u tips
    → u.operation ≡ delete
only_deletes tips u h i = by_operation u.operation refl
  where
    by_operation : (o : ResourceOperation) → u.operation ≡ o → u.operation ≡ delete
    by_operation delete e = e
    by_operation put e =
        absurd (ground (arith, In-length u (updates_of tips) ((updates-In tips u).1 (i, e))))

candidates-In :
    (tips : List ResourceTip) (t : ResourceTip)
    → In t (candidates tips)
      ↔ (In t tips × ((t.operation ≡ put) ⊎ ((u : ResourceTip) → In u tips → u.operation ≡ delete)))
unfolding candidates
candidates-In tips t = elim (Bool-cases (ltb 0 (length (updates_of tips)))) [
  | inl some_put ↦ rw some_put (
    λ i. let (j, e) = (updates-In tips t).0 i in (j, inl e),
    λ h. (updates-In tips t).1 (h.0, is_put some_put h.0 h.1),
  )
  | inr no_put ↦ rw no_put (λ i. (i, inr (λ u j. only_deletes tips u no_put j)), λ h. h.0)
]
  where
    is_put :
        ltb 0 (length (updates_of tips)) ≡ true
        → In t tips
        → (t.operation ≡ put) ⊎ ((u : ResourceTip) → In u tips → u.operation ≡ delete)
        → t.operation ≡ put
    is_put h i (inl e) = e
    is_put h i (inr all) =
        let (u, j) = first-In (updates_of tips) (ltb→lt 0 _ h) in
        let (k, e) = (updates-In tips u).0 j in absurd (put≢delete (sym e ∙ all u k))

choose_active_tip-head :
    (tips : List ResourceTip) (t : ResourceTip)
    → choose_active_tip tips ≡ some t
    → head? (sort compare_tips (candidates tips)) ≡ some t
unfolding choose_active_tip
choose_active_tip-head tips t h = ground arith

-- The elected tip is one of the tips. It is a write unless every tip is a deletion, and of the tips
-- with its operation none comes before it, so none has a higher Lamport time.
pub choose_active_tip-newest :
    (tips : List ResourceTip) (t : ResourceTip)
    → choose_active_tip tips ≡ some t
    → In t tips
      × ((t.operation ≡ put) ⊎ ((u : ResourceTip) → In u tips → u.operation ≡ delete))
      × ((u : ResourceTip)
          → In u tips
          → u.operation ≡ t.operation
          → (is_gt (compare_tips t u) ≡ false) × (u.lamport ≤ t.lamport))
choose_active_tip-newest tips t h =
    let (i, least) =
      head-sort compare_tips-IsComparator (candidates tips) t (choose_active_tip-head tips t h) in
    let (j, kind) = (candidates-In tips t).0 i in
    (
      j,
      kind,
      λ u k e.
          let first = least u ((candidates-In tips u).1 (k, subst Electable (sym e) kind)) in
          (first, compare_tips-lamport t u first),
    )
  where
    Electable : ResourceOperation → Type 0
    Electable o = (o ≡ put) ⊎ ((u : ResourceTip) → In u tips → u.operation ≡ delete)

candidates-some : (t : ResourceTip) (ts : List ResourceTip) → 0 < length (candidates (t ∷ ts))
unfolding candidates
candidates-some t ts = ground arith

-- Some tip is elected whenever there is one.
pub choose_active_tip_total :
    (tips : List ResourceTip) → tips ≢ [] → (t : ResourceTip) × (choose_active_tip tips ≡ some t)
choose_active_tip_total [] h = absurd (h refl)
choose_active_tip_total (t ∷ ts) h =
    let (u, e) = sort_total compare_tips (candidates (t ∷ ts)) (candidates-some t ts) in
    (u, unfold choose_active_tip in ground arith)

-- Two devices that hold the same tips, in whatever order, elect the same one, where the tips are of
-- different events.
pub choose_active_tip_agree :
    (mine yours : List ResourceTip) (t u : ResourceTip)
    → ((a : ResourceTip) → In a mine ↔ In a yours)
    → ((a b : ResourceTip) → In a mine → In b mine → a.event_hash ≡ b.event_hash → a ≡ b)
    → choose_active_tip mine ≡ some t
    → choose_active_tip yours ≡ some u
    → t ≡ u
choose_active_tip_agree mine yours t u same apart p q =
    head-sort_unique compare_tips-IsComparator (candidates mine) (candidates yours)
      (λ a. (
        λ i. pass mine yours a (λ b. (same b).0) (λ b. (same b).1) i,
        λ i. pass yours mine a (λ b. (same b).1) (λ b. (same b).0) i,
      ))
      (λ a b i j e.
        apart a b ((candidates-In mine a).0 i).0 ((candidates-In mine b).0 j).0
          (compare_tips-eq a b e).2)
      t u (choose_active_tip-head mine t p) (choose_active_tip-head yours u q)
  where
    pass :
        (xs ys : List ResourceTip) (a : ResourceTip)
        → ((b : ResourceTip) → In b xs → In b ys)
        → ((b : ResourceTip) → In b ys → In b xs)
        → In a (candidates xs)
        → In a (candidates ys)
    pass xs ys a to from i =
        let (j, kind) = (candidates-In xs a).0 i in (candidates-In ys a).1 (to a j, keep kind)
      where
        keep :
            (a.operation ≡ put) ⊎ ((u : ResourceTip) → In u xs → u.operation ≡ delete)
            → (a.operation ≡ put) ⊎ ((u : ResourceTip) → In u ys → u.operation ≡ delete)
        keep (inl e) = inl e
        keep (inr all) = inr (λ b k. all b (from b k))

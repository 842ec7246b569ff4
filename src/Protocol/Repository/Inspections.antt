-- ===== src/Protocol/Repository/Inspections.antt =====
-- src/protocol/repository.ts, `rotateCheckpointInspections`: where the inspections of the chats in a
-- checkpoint go on.
use cursor_setting_sync.Base.{
  ℕ, zero, suc, ◌≡◌, refl, Bool, true, false, not, Option, none, some, List, [], ◌∷◌, ◌++◌, inl,
  inr, take, drop, All, subst, ++-nil, sym, filter, arith, Bool-cases, Option-cases, if◌then◌else◌,
  Ordering,
}
use cursor_setting_sync.Base.Texts.{Text}
use cursor_setting_sync.Base.Sort.{sort, IsSorted, IsComparator, is_gt, sort-IsSorted}
use cursor_setting_sync.Protocol.Canonical.{compare_code_units, compare_code_units-IsComparator}

-- `findIndex`, with `none` for -1.
unfoldable pub find_index : {A : Type 0} → (A → Bool) → List A → Option ℕ
find_index test [] = none
find_index test (x ∷ xs) =
    let rest = find_index test xs in
    if test x then some 0 else elim rest [ none ↦ none | some n ↦ some (suc n) ]

module _ {A : Type 0} (resource_id : A → Text) where
  abbrev pub by_resource_id : A → A → Ordering
  by_resource_id left right = compare_code_units (resource_id left) (resource_id right)

  abbrev pub is_after : Text → A → Bool
  is_after cursor candidate = is_gt (compare_code_units (resource_id candidate) cursor)

  -- `findIndex` and the slices.
  abbrev pub start_at : List A → Option ℕ → List A
  start_at ordered none = ordered
  start_at ordered (some zero) = ordered
  start_at ordered (some (suc n)) = drop (suc n) ordered ++ take (suc n) ordered

  unfoldable pub rotate_checkpoint_inspections : List A → Option Text → List A
  rotate_checkpoint_inspections candidates none = sort by_resource_id candidates
  rotate_checkpoint_inspections candidates (some cursor) =
      let ordered = sort by_resource_id candidates in
      start_at ordered (find_index (is_after cursor) ordered)

-- Once the test holds along the list, it goes on to hold.
abbrev Upward : {A : Type 0} → (A → Bool) → List A → Type 0
Upward test [] = Unit
Upward test (x ∷ xs) = (test x ≡ true → All (λ y. test y ≡ true) xs) × Upward test xs

module _ {A : Type 0} (test : A → Bool) where
  filter-All :
      (xs : List A)
      → All (λ y. test y ≡ true) xs
      → (filter test xs ≡ xs) × (filter (λ y. not (test y)) xs ≡ [])
  unfolding filter
  filter-All [] h = (refl, refl)
  filter-All (x ∷ xs) (h, k) = let (p, q) = filter-All xs k in ground (arith, h, p, q)

  -- What the place says of the list: the items from it on are those that pass.
  abbrev Divides : List A → Option ℕ → Type 0
  Divides xs none = (filter test xs ≡ []) × (filter (λ y. not (test y)) xs ≡ xs)
  Divides xs (some n) = (filter test xs ≡ drop n xs) × (filter (λ y. not (test y)) xs ≡ take n xs)

  find_index-Divides : (xs : List A) → Upward test xs → Divides xs (find_index test xs)
  unfolding find_index filter
  find_index-Divides [] u = (refl, refl)
  find_index-Divides (x ∷ xs) (u, v) = elim (Bool-cases (test x)) [
    | inl t ↦ let (p, q) = filter-All (x ∷ xs) (t, u t) in rw t (p, q)
    | inr f ↦ elim (Option-cases (find_index test xs)) [
      | inl e ↦
          let (p, q) = subst (Divides xs) e (find_index-Divides xs v) in
          rw (f, e) (rw f p, rw (f, q) refl)
      | inr (n, e) ↦
          let (p, q) = subst (Divides xs) e (find_index-Divides xs v) in
          rw (f, e) (rw f p, rw (f, q) refl)
    ]
  ]

module _ {A : Type 0} (resource_id : A → Text) (cursor : Text) where
  is_after-Upward :
      (xs : List A)
      → IsSorted (by_resource_id resource_id) xs
      → Upward (is_after resource_id cursor) xs
  is_after-Upward [] s = tt
  is_after-Upward (x ∷ xs) (h, s) = (λ t. goes_on t xs h, is_after-Upward xs s)
    where
      goes_on :
          is_after resource_id cursor x ≡ true
          → (ys : List A) → All (λ y. is_gt (by_resource_id resource_id x y) ≡ false) ys
          → All (λ y. is_after resource_id cursor y ≡ true) ys
      goes_on t [] h = tt
      goes_on t (y ∷ ys) (p, q) = (
        ground (
          arith,
          t,
          p,
          compare_code_units-IsComparator.trans (resource_id x) (resource_id y) cursor p,
        ),
        goes_on t ys q,
      )

  start_at-Divides :
      (xs : List A) (place : Option ℕ)
      → Divides (is_after resource_id cursor) xs place
      → start_at resource_id xs place
        ≡ filter (is_after resource_id cursor) xs
          ++ filter (λ y. not (is_after resource_id cursor y)) xs
  start_at-Divides xs none (p, q) = rw (p, q) refl
  start_at-Divides xs (some zero) (p, q) = rw (p, q) (sym (++-nil xs))
  start_at-Divides xs (some (suc n)) (p, q) = rw (p, q) refl

  -- With a cursor, the inspections go on with the candidates whose id is after it, in the order of
  -- the ids, and then take all others in that order.
  pub rotate_checkpoint_inspections_lem :
      (candidates : List A)
      → rotate_checkpoint_inspections resource_id candidates (some cursor)
        ≡ filter (is_after resource_id cursor) (sort (by_resource_id resource_id) candidates)
          ++ filter
              (λ y. not (is_after resource_id cursor y))
              (sort (by_resource_id resource_id) candidates)
  unfolding rotate_checkpoint_inspections
  rotate_checkpoint_inspections_lem candidates =
      let by_id : IsComparator (by_resource_id resource_id) = record {
        flips = λ a b. compare_code_units-IsComparator.flips (resource_id a) (resource_id b);
        trans = λ a b c.
            compare_code_units-IsComparator.trans (resource_id a) (resource_id b) (resource_id c);
      } in
      start_at-Divides _ _
        (find_index-Divides _ _ (is_after-Upward _ (sort-IsSorted by_id candidates)))

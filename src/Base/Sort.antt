-- ===== src/Base/Sort.antt =====
-- Comparators and `Array.prototype.sort`. Of a comparator's number the sort uses the sign, an
-- `Ordering`; the sort is stable, so insertion from the back is its value.
use Prim.Native.Nat.{Ordering, ◌<◌}
use mathlib.Core.Path.{◌≡◌, refl, sym}
use mathlib.Core.Logic.{◌⊎◌, inl, inr, ◌↔◌}
use mathlib.Core.Bool.{Bool, true, false}
use mathlib.Core.Option.{some}
use mathlib.Core.List.{List, [], ◌∷◌, Perm}
use mathlib.Core.List.Perm
use native.Mathlib.Omega.{arith}
use cursor_setting_sync.Base.Tests.{if◌then◌else◌, Bool-cases}
use cursor_setting_sync.Base.Lists.{In, All, All-In, head?, length}

abbrev pub flip : Ordering → Ordering
flip Ordering.lt = Ordering.gt
flip Ordering.eq = Ordering.eq
flip Ordering.gt = Ordering.lt

abbrev pub is_gt : Ordering → Bool
is_gt Ordering.gt = true
is_gt Ordering.eq = false
is_gt Ordering.lt = false

-- A comparator of a total preorder.
pub record IsComparator {ℓ} {A : Type ℓ} (cmp : A → A → Ordering) : Type ℓ where
  pub flips : (a b : A) → cmp b a ≡ flip (cmp a b)
  pub trans :
      (a b c : A) → is_gt (cmp a b) ≡ false → is_gt (cmp b c) ≡ false → is_gt (cmp a c) ≡ false

module _ {ℓ} {A : Type ℓ} (cmp : A → A → Ordering) where
  unfoldable pub insert : A → List A → List A
  insert x [] = x ∷ []
  insert x (y ∷ ys) = let rest = insert x ys in if is_gt (cmp x y) then y ∷ rest else x ∷ y ∷ ys

  unfoldable pub sort : List A → List A
  unfolding insert
  sort [] = []
  sort (x ∷ xs) = insert x (sort xs)

  abbrev pub IsSorted : List A → Type ℓ
  IsSorted [] = Unit
  IsSorted (x ∷ xs) = All (λ y. is_gt (cmp x y) ≡ false) xs × IsSorted xs

  insert-perm : (x : A) (xs : List A) → Perm (insert x xs) (x ∷ xs)
  unfolding insert
  insert-perm x [] = Perm.refl (x ∷ [])
  insert-perm x (y ∷ ys) = elim (Bool-cases (is_gt (cmp x y))) [
    | inl t ↦ rw t (Perm.trans (Perm.cons y (insert-perm x ys)) (Perm.swap x y ys))
    | inr f ↦ rw f (Perm.refl (x ∷ y ∷ ys))
  ]

  -- The sort keeps the items, as often as they were there.
  pub sort-perm : (xs : List A) → Perm (sort xs) xs
  unfolding sort
  sort-perm [] = Perm.refl []
  sort-perm (x ∷ xs) = Perm.trans (insert-perm x (sort xs)) (Perm.cons x (sort-perm xs))

  insert-All {κ} : (P : A → Type κ) (x : A) (xs : List A) → P x → All P xs → All P (insert x xs)
  unfolding insert
  insert-All P x [] h k = (h, tt)
  insert-All P x (y ∷ ys) h (hy, k) = elim (Bool-cases (is_gt (cmp x y))) [
    | inl t ↦ rw t (hy, insert-All P x ys h k)
    | inr f ↦ rw f (h, (hy, k))
  ]

  insert_total : (x : A) (xs : List A) → (m : A) × (head? (insert x xs) ≡ some m)
  unfolding insert
  insert_total x [] = (x, refl)
  insert_total x (y ∷ ys) = elim (Bool-cases (is_gt (cmp x y))) [
    | inl t ↦ (y, rw t)
    | inr f ↦ (x, rw f)
  ]

  -- A sorted list has a first item if the list has any.
  pub sort_total : (xs : List A) → 0 < length xs → (m : A) × (head? (sort xs) ≡ some m)
  unfolding sort
  sort_total [] h = absurd (omega arith)
  sort_total (x ∷ xs) h = insert_total x (sort xs)

  pub sort-All {κ} : (P : A → Type κ) (xs : List A) → All P xs → All P (sort xs)
  unfolding sort
  sort-All P [] k = tt
  sort-All P (x ∷ xs) (h, k) = insert-All P x (sort xs) h (sort-All P xs k)

module _ {ℓ} {A : Type ℓ} {cmp : A → A → Ordering} (law : IsComparator cmp) where
  All-le_trans :
      (x y : A) (ys : List A)
      → is_gt (cmp x y) ≡ false
      → All (λ z. is_gt (cmp y z) ≡ false) ys
      → All (λ z. is_gt (cmp x z) ≡ false) ys
  All-le_trans x y [] h k = tt
  All-le_trans x y (z ∷ zs) h (hz, k) = (law.trans x y z h hz, All-le_trans x y zs h k)

  gt-flip : (x y : A) → is_gt (cmp x y) ≡ true → is_gt (cmp y x) ≡ false
  gt-flip x y h = ground (arith, law.flips x y)

  insert-IsSorted : (x : A) (xs : List A) → IsSorted cmp xs → IsSorted cmp (insert cmp x xs)
  unfolding insert
  insert-IsSorted x [] h = (tt, tt)
  insert-IsSorted x (y ∷ ys) (h, k) = elim (Bool-cases (is_gt (cmp x y))) [
    | inl t ↦ rw t (
      insert-All cmp (λ z. is_gt (cmp y z) ≡ false) x ys (gt-flip x y t) h,
      insert-IsSorted x ys k,
    )
    | inr f ↦ rw f ((f, All-le_trans x y ys f h), (h, k))
  ]

  pub sort-IsSorted : (xs : List A) → IsSorted cmp (sort cmp xs)
  unfolding sort
  sort-IsSorted [] = tt
  sort-IsSorted (x ∷ xs) = insert-IsSorted x (sort cmp xs) (sort-IsSorted xs)

module _ {A : Type 0} (cmp : A → A → Ordering) where
  In-insert : (a x : A) (xs : List A) → In a (insert cmp x xs) ↔ ((a ≡ x) ⊎ In a xs)
  unfolding insert
  In-insert a x [] = (λ h. h, λ h. h)
  In-insert a x (y ∷ ys) =
      (λ h. ground (arith, In-insert a x ys), λ h. ground (arith, In-insert a x ys))

  pub In-sort : (a : A) (xs : List A) → In a (sort cmp xs) ↔ In a xs
  unfolding sort
  In-sort a [] = (λ h. h, λ h. h)
  In-sort a (x ∷ xs) = (
    λ h. ground (arith, In-insert a x (sort cmp xs), In-sort a xs),
    λ h. ground (arith, In-insert a x (sort cmp xs), In-sort a xs),
  )

module _ {A : Type 0} {cmp : A → A → Ordering} (law : IsComparator cmp) where
  self-le : (a : A) → is_gt (cmp a a) ≡ false
  self-le a = ground (arith, law.flips a a)

  head-le :
      (m : A) (s : List A)
      → IsSorted cmp s
      → head? s ≡ some m
      → In m s × ((a : A) → In a s → is_gt (cmp m a) ≡ false)
  head-le m [] h e = absurd (cc)
  head-le m (x ∷ xs) (h, k) e = (inl (sym x≡m), least)
    where
      x≡m : x ≡ m
      x≡m = ground arith

      least : (a : A) → In a (x ∷ xs) → is_gt (cmp m a) ≡ false
      least a (inl p) = rw (p, x≡m) (self-le m)
      least a (inr i) = rw (← x≡m) (All-In (λ y. is_gt (cmp x y) ≡ false) a xs h i)

  -- The first item of the sorted list is one of the items, and no item comes before it.
  pub head-sort :
      (xs : List A) (m : A)
      → head? (sort cmp xs) ≡ some m
      → In m xs × ((a : A) → In a xs → is_gt (cmp m a) ≡ false)
  head-sort xs m e =
      let (i, least) = head-le m (sort cmp xs) (sort-IsSorted law xs) e in
      ((In-sort cmp m xs).0 i, λ a j. least a ((In-sort cmp a xs).1 j))

  -- Two lists of the same items have the same first item in order, where the comparator tells
  -- different items of the list apart.
  pub head-sort_unique :
      (xs ys : List A)
      → ((a : A) → In a xs ↔ In a ys)
      → ((a b : A) → In a xs → In b xs → cmp a b ≡ Ordering.eq → a ≡ b)
      → (m n : A) → head? (sort cmp xs) ≡ some m
      → head? (sort cmp ys) ≡ some n
      → m ≡ n
  head-sort_unique xs ys same apart m n p q =
      let (im, lm) = head-sort xs m p in
      let (jn, ln) = head-sort ys n q in
      let jm = (same m).0 im in
      let in' = (same n).1 jn in apart m n im in' (ground (arith, law.flips m n, lm n in', ln m jm))

-- ===== src/Base/Sets.antt =====
-- JavaScript's `Set`: its members in the order in which they were added, each once.
use Prim.Native.Nat.{◌+◌, ◌≤◌}
use mathlib.Core.Path.{◌≡◌, refl, sym}
use mathlib.Core.Logic.{◌⊎◌, inl, inr, ◌↔◌}
use mathlib.Core.Bool.{Bool, true, false, ◌||◌}
use mathlib.Core.List.{List, [], ◌∷◌, ◌++◌}
use native.Mathlib.Omega.{arith}
use cursor_setting_sync.Base.Tests.{if◌then◌else◌, Bool-cases}
use cursor_setting_sync.Base.Equality.{StrictEq}
use cursor_setting_sync.Base.Lists.{
  length, length-append, In, In-append, In-append_left, In-append_right,
}
use cursor_setting_sync.Base.Appends.{++-nil, ++-assoc}

module _ {ℓ} {A : Type ℓ} ⦃e : StrictEq A⦄ where
  -- `set.has(a)`, and `list.includes(a)`.
  unfoldable pub has : A → List A → Bool
  has a [] = false
  has a (x ∷ xs) = e.equals a x || has a xs

  -- `set.add(a)`.
  unfoldable pub add : A → List A → List A
  add a xs = if has a xs then xs else xs ++ a ∷ []

  -- `new Set(xs)`, from what was seen before.
  unfoldable pub distinct_from : List A → List A → List A
  unfolding add
  distinct_from seen [] = seen
  distinct_from seen (x ∷ xs) = distinct_from (add x seen) xs

module _ {A : Type 0} ⦃e : StrictEq A⦄ where
  pub has-In : (a : A) (xs : List A) → (has a xs ≡ true) ↔ In a xs
  unfolding has
  has-In a [] = (λ h. cc, λ h. absurd h)
  has-In a (x ∷ xs) = (
    λ h. ground (arith, e.equals_iff a x, has-In a xs),
    λ h. ground (arith, e.equals_iff a x, has-In a xs),
  )

  pub In-add : (b a : A) (xs : List A) → In b (add a xs) ↔ (In b xs ⊎ (b ≡ a))
  unfolding add
  In-add b a xs = elim (Bool-cases (has a xs)) [
    | inl t ↦ rw t (λ h. inl h, λ h. elim h [ inl i ↦ i | inr p ↦ rw p ((has-In a xs).0 t) ])
    | inr f ↦ rw f (
      λ h. ground (arith, In-append b xs (a ∷ []) h),
      λ h. elim h [
        | inl i ↦ In-append_left b xs (a ∷ []) i
        | inr p ↦ In-append_right b xs (a ∷ []) (inl p)
      ],
    )
  ]

  pub has-last : (a b : A) (xs : List A) → has a (xs ++ b ∷ []) ≡ has a xs || e.equals a b
  unfolding has
  has-last a b [] = ground arith
  has-last a b (x ∷ xs) = ground (arith, has-last a b xs)

  pub In-distinct_from :
      (a : A) (seen xs : List A) → In a (distinct_from seen xs) ↔ (In a seen ⊎ In a xs)
  unfolding distinct_from
  In-distinct_from a seen [] = (λ h. inl h, λ h. ground arith)
  In-distinct_from a seen (x ∷ xs) = (
    λ h. ground (arith, In-distinct_from a (add x seen) xs, In-add a x seen),
    λ h. ground (arith, In-distinct_from a (add x seen) xs, In-add a x seen),
  )

  pub has-distinct_from : (a : A) (xs : List A) → has a (distinct_from [] xs) ≡ has a xs
  has-distinct_from a xs =
      ground (arith, has-In a (distinct_from [] xs), has-In a xs, In-distinct_from a [] xs)

-- No member twice.
module _ {A : Type 0} ⦃e : StrictEq A⦄ where
  abbrev pub Distinct : List A → Type 0
  Distinct [] = Unit
  Distinct (x ∷ xs) = (has x xs ≡ false) × Distinct xs

  has-append :
      (a b : A) (xs : List A)
      → has a xs ≡ false
      → e.equals a b ≡ false
      → has a (xs ++ b ∷ []) ≡ false
  unfolding has
  has-append a b [] h k = ground arith
  has-append a b (x ∷ xs) h k = ground (arith, has-append a b xs)

  append-Distinct : (xs : List A) (b : A) → Distinct xs → has b xs ≡ false → Distinct (xs ++ b ∷ [])
  unfolding has
  append-Distinct [] b h k = (refl, tt)
  append-Distinct (x ∷ xs) b h k = (
    has-append x b xs h.0 (ground (arith, e.equals_iff x b, e.equals_iff b x)),
    append-Distinct xs b h.1 (ground arith),
  )

  pub distinct_from-Distinct : (seen xs : List A) → Distinct seen → Distinct (distinct_from seen xs)
  unfolding distinct_from add
  distinct_from-Distinct seen [] h = h
  distinct_from-Distinct seen (x ∷ xs) h =
      distinct_from-Distinct (add x seen) xs (ground (arith, append-Distinct seen x h))

  distinct_from-seen :
      (seen xs : List A) → ((x : A) → In x xs → has x seen ≡ true) → distinct_from seen xs ≡ seen
  unfolding distinct_from add
  distinct_from-seen seen [] h = refl
  distinct_from-seen seen (x ∷ xs) h =
      rw (h x (inl refl)) (distinct_from-seen seen xs (λ y i. h y (inr i)))

  distinct_from-append :
      (seen xs ys : List A)
      → distinct_from seen (xs ++ ys) ≡ distinct_from (distinct_from seen xs) ys
  unfolding distinct_from
  distinct_from-append seen [] ys = refl
  distinct_from-append seen (x ∷ xs) ys = distinct_from-append (add x seen) xs ys

  -- What comes later is new: neither seen before nor there twice.
  abbrev pub IsNew : List A → List A → Type 0
  IsNew seen [] = Unit
  IsNew seen (x ∷ xs) = (has x seen ≡ false) × IsNew (seen ++ x ∷ []) xs

  distinct_from-new : (seen xs : List A) → IsNew seen xs → distinct_from seen xs ≡ seen ++ xs
  unfolding distinct_from add
  distinct_from-new seen [] h = sym (++-nil seen)
  distinct_from-new seen (x ∷ xs) h =
      rw (h.0, distinct_from-new (seen ++ x ∷ []) xs h.1, ++-assoc) refl

  pub distinct_from-twice : (xs : List A) → IsNew [] xs → distinct_from [] (xs ++ xs) ≡ xs
  distinct_from-twice xs h =
      rw (distinct_from-append, distinct_from-new [] xs h)
        (distinct_from-seen xs xs (λ x i. (has-In x xs).1 i))

  -- As many members as items: no item is there twice.
  distinct_from-IsNew :
      (seen xs : List A)
      → (length (distinct_from seen xs) ≤ length seen + length xs)
        × (length (distinct_from seen xs) ≡ length seen + length xs → IsNew seen xs)
  unfolding distinct_from add
  distinct_from-IsNew seen [] = (omega arith, λ _. tt)
  distinct_from-IsNew seen (x ∷ xs) = elim (Bool-cases (has x seen)) [
    | inl t ↦
        let (le, _) = distinct_from-IsNew seen xs in rw t (omega arith, λ e. absurd (omega arith))
    | inr f ↦
        let (le, new) = distinct_from-IsNew (seen ++ x ∷ []) xs in
        let long = length-append seen (x ∷ []) in rw f (omega arith, λ e. (refl, new (omega arith)))
  ]

  pub distinct_from-length : (xs : List A) → length (distinct_from [] xs) ≡ length xs → Distinct xs
  distinct_from-length xs h =
      rw (distinct_from-new [] xs ((distinct_from-IsNew [] xs).1 (omega arith))) at
        (distinct_from-Distinct [] xs tt)

-- The list without the first occurrence of a member.
module _ {A : Type 0} ⦃e : StrictEq A⦄ where
  abbrev pub without : A → List A → List A
  without a [] = []
  without a (x ∷ xs) = let rest = without a xs in if e.equals a x then xs else x ∷ rest

  pub length-without : (a : A) (xs : List A) → In a xs → length xs ≡ 1 + length (without a xs)
  length-without a [] i = absurd i
  length-without a (x ∷ xs) i = ground (arith, e.equals_iff a x, length-without a xs)

  pub In-without : (b a : A) (xs : List A) → In b xs → ¬ (b ≡ a) → In b (without a xs)
  In-without b a [] i n = absurd i
  In-without b a (x ∷ xs) i n = ground (arith, e.equals_iff a x, In-without b a xs)

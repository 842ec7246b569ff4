-- ===== src/Base/Equality.antt =====
-- JavaScript's `===` on the types that the code compares, as an interface with one operator.
use Prim.Native.Nat.{ℕ}
use mathlib.Core.Path.{◌≡◌, refl}
use mathlib.Core.Logic.{◌↔◌, ◌⊎◌, ◌≢◌}
use mathlib.Core.Bool.{Bool, true, false, ◌&&◌}
use mathlib.Core.Option.{Option, none, some}
use mathlib.Core.List.{List, [], ◌∷◌}
use native.Mathlib.Omega.{arith}
use cursor_setting_sync.Base.Tests.{nat_beq, nat_beq_iff}

-- A Boolean test that decides whether two values are the same.
pub record StrictEq {ℓ} (T : Type ℓ) : Type ℓ where
  pub equals : T → T → Bool
  pub equals_iff : (left right : T) → (equals left right ≡ true) ↔ (left ≡ right)

-- `===` and `!==`.
infix 50 ◌==◌ ◌!=◌
abbrev pub ◌==◌ {ℓ} : {T : Type ℓ} ⦃test : StrictEq T⦄ → T → T → Bool
◌==◌ ⦃test⦄ left right = test.equals left right

abbrev pub ◌!=◌ {ℓ} : {A : Type ℓ} ⦃e : StrictEq A⦄ → A → A → Bool
◌!=◌ ⦃e⦄ a b = elim (e.equals a b) [ true ↦ false | false ↦ true ]

instance abbrev pub nat_eq : StrictEq ℕ
nat_eq = record { equals = nat_beq; equals_iff = nat_beq_iff }

module _ {ℓ} {A : Type ℓ} ⦃e : StrictEq A⦄ where
  pub beq_refl : (a : A) → e.equals a a ≡ true
  beq_refl a = (e.equals_iff a a).1 refl

  pub beq→eq : (a b : A) → e.equals a b ≡ true → a ≡ b
  beq→eq a b = (e.equals_iff a b).0

  pub ne→beq : (a b : A) → a ≢ b → e.equals a b ≡ false
  ne→beq a b h = ground (arith, e.equals_iff a b)

  pub eq_cases : (a b : A) → ((e.equals a b ≡ true) × (a ≡ b)) ⊎ ((e.equals a b ≡ false) × (a ≢ b))
  eq_cases a b = ground (arith, e.equals_iff a b)

  unfoldable pub list_beq : List A → List A → Bool
  list_beq [] [] = true
  list_beq [] (y ∷ ys) = false
  list_beq (x ∷ xs) [] = false
  list_beq (x ∷ xs) (y ∷ ys) = e.equals x y && list_beq xs ys

  pub list_beq_iff : (xs ys : List A) → (list_beq xs ys ≡ true) ↔ (xs ≡ ys)
  unfolding list_beq
  list_beq_iff [] [] = (λ _. refl, λ _. refl)
  list_beq_iff [] (y ∷ ys) = (λ h. cc, λ h. cc)
  list_beq_iff (x ∷ xs) [] = (λ h. cc, λ h. cc)
  list_beq_iff (x ∷ xs) (y ∷ ys) = (
    λ h. ground (arith, e.equals_iff x y, list_beq_iff xs ys),
    λ h. ground (arith, e.equals_iff x y, list_beq_iff xs ys),
  )

  unfoldable pub option_beq : Option A → Option A → Bool
  option_beq none none = true
  option_beq none (some b) = false
  option_beq (some a) none = false
  option_beq (some a) (some b) = e.equals a b

  pub option_beq_iff : (a b : Option A) → (option_beq a b ≡ true) ↔ (a ≡ b)
  unfolding option_beq
  option_beq_iff none none = (λ _. refl, λ _. refl)
  option_beq_iff none (some b) = (λ h. cc, λ h. cc)
  option_beq_iff (some a) none = (λ h. cc, λ h. cc)
  option_beq_iff (some a) (some b) =
      (λ h. ground (arith, e.equals_iff a b), λ h. ground (arith, e.equals_iff a b))

instance abbrev pub list_eq {ℓ} : {A : Type ℓ} ⦃e : StrictEq A⦄ → StrictEq (List A)
unfolding list_beq
list_eq = record { equals = list_beq; equals_iff = list_beq_iff }

instance abbrev pub option_eq {ℓ} : {A : Type ℓ} ⦃e : StrictEq A⦄ → StrictEq (Option A)
unfolding option_beq
option_eq = record { equals = option_beq; equals_iff = option_beq_iff }

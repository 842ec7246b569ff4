-- ===== src/Base/Maps.antt =====
-- JavaScript's `Map` and the objects used as dictionaries: entries in the order in which their keys
-- were first set. A write to a key that is there keeps its place.
use mathlib.Core.Path.{◌≡◌, refl}
use mathlib.Core.Logic.{inl, inr}
use mathlib.Core.Option.{Option, none, some}
use mathlib.Core.List.{List, [], ◌∷◌}
use native.Mathlib.Omega.{arith}
use cursor_setting_sync.Base.Tests.{if◌then◌else◌}
use cursor_setting_sync.Base.Equality.{StrictEq}
use cursor_setting_sync.Base.Lists.{In}

abbrev pub Map {ℓ κ} : Type ℓ → Type κ → Type (ℓ ⊔ κ)
Map K V = List (K × V)

module _ {ℓ κ} {K : Type ℓ} {V : Type κ} where
  abbrev pub keys : Map K V → List K
  keys [] = []
  keys ((k, v) ∷ m) = k ∷ keys m

  abbrev pub values : Map K V → List V
  values [] = []
  values ((k, v) ∷ m) = v ∷ values m

module _ {ℓ κ} {K : Type ℓ} {V : Type κ} ⦃e : StrictEq K⦄ where
  unfoldable pub get : Map K V → K → Option V
  get [] k = none
  get ((j, v) ∷ m) k = if e.equals j k then some v else get m k

  unfoldable pub set : Map K V → K → V → Map K V
  set [] k v = (k, v) ∷ []
  set ((j, w) ∷ m) k v = let rest = set m k v in if e.equals j k then (j, v) ∷ m else (j, w) ∷ rest

  pub get-set :
      (m : Map K V) (k j : K) (v : V)
      → get (set m k v) j ≡ (if e.equals k j then some v else get m j)
  unfolding get set
  get-set [] k j v = refl
  get-set ((i, w) ∷ m) k j v =
      ground (arith, e.equals_iff i k, e.equals_iff i j, e.equals_iff k j, get-set m k j v)

-- The entries of a map with no key twice.
module _ {K : Type 0} {V : Type 0} ⦃e : StrictEq K⦄ where
  abbrev pub HasKeys : Map K V → Type 0
  HasKeys [] = Unit
  HasKeys ((k, v) ∷ m) = (get m k ≡ none) × HasKeys m

  pub set-HasKeys : (m : Map K V) (k : K) (v : V) → HasKeys m → HasKeys (set m k v)
  unfolding get set
  set-HasKeys [] k v h = (refl, tt)
  set-HasKeys ((j, w) ∷ m) k v h =
      ground (arith, e.equals_iff j k, e.equals_iff k j, get-set m k j v, set-HasKeys m k v h.1)

  pub In-get : (m : Map K V) (k : K) (v : V) → get m k ≡ some v → In (k, v) m
  unfolding get
  In-get [] k v h = absurd (cc)
  In-get ((j, w) ∷ m) k v h = ground (arith, e.equals_iff j k, In-get m k v)

  pub get-In : (m : Map K V) (k : K) (v : V) → HasKeys m → In (k, v) m → get m k ≡ some v
  unfolding get
  get-In [] k v h i = absurd i
  get-In ((j, w) ∷ m) k v h (inl p) = ground (arith, e.equals_iff j k)
  get-In ((j, w) ∷ m) k v h (inr i) =
      let found = get-In m k v h.1 i in ground (arith, e.equals_iff j k, found)

  pub get-values : (m : Map K V) (k : K) (v : V) → get m k ≡ some v → In v (values m)
  unfolding get
  get-values [] k v h = absurd (cc)
  get-values ((j, w) ∷ m) k v h = ground (arith, get-values m k v)

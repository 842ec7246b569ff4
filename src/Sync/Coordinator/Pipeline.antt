-- ===== src/Sync/Coordinator/Pipeline.antt =====
-- src/sync/backgroundCoordinator.ts: the operations that wait for their turn, as the chain of
-- `operationTail` holds them.
use cursor_setting_sync.Base.{
  ℕ, suc, ◌+◌, ◌≤◌, ◌≡◌, refl, ◌⊎◌, inl, inr, Bool, ◌&&◌, some, List, [], ◌∷◌, ◌++◌, nat_beq,
  if◌then◌else◌, arith, All,
}
use cursor_setting_sync.Sync.CoordinatorState.{
  Continuation, attempts, probes, releases_again, ends, Operation,
}

-- One where the work goes on the election of the current generation.
abbrev pub weight : Bool → ℕ → Continuation → ℕ
weight runs generation (attempts g run_initial_sync) = if runs && nat_beq g generation then 1 else 0
weight runs generation (probes g) = if runs && nat_beq g generation then 1 else 0
weight runs generation releases_again = 0
weight runs generation ends = 0

unfoldable pub total_weight : Bool → ℕ → List Operation → ℕ
total_weight runs generation [] = 0
total_weight runs generation (x ∷ xs) =
    weight runs generation x.after + total_weight runs generation xs

-- No operation is of a generation that is still to come.
abbrev pub IsPast : ℕ → Continuation → Type 0
IsPast generation (attempts g run_initial_sync) = g ≤ generation
IsPast generation (probes g) = g ≤ generation
IsPast generation releases_again = Unit
IsPast generation ends = Unit

abbrev pub ArePast : ℕ → List Operation → Type 0
ArePast generation xs = All (λ (x : Operation). IsPast generation x.after) xs

-- The release of the lock is awaited before any operation goes on with the election.
abbrev pub Waits : Bool → ℕ → ℕ → List Operation → Type 0
Waits runs generation lock [] = ⊥
Waits runs generation lock (x ∷ xs) =
    (x.release ≡ some lock) ⊎ ((weight runs generation x.after ≡ 0) × Waits runs generation lock xs)

pub total_weight-append :
    (runs : Bool) (generation : ℕ) (xs ys : List Operation)
    → total_weight runs generation (xs ++ ys)
      ≡ total_weight runs generation xs + total_weight runs generation ys
unfolding total_weight
total_weight-append runs g [] ys = omega arith
total_weight-append runs g (x ∷ xs) ys = omega (arith, total_weight-append runs g xs ys)

pub weight-next :
    (runs : Bool) (generation : ℕ) (k : Continuation)
    → IsPast generation k
    → weight runs (suc generation) k ≡ 0
weight-next runs g (attempts h b) p = ground arith
weight-next runs g (probes h) p = ground arith
weight-next runs g releases_again p = refl
weight-next runs g ends p = refl

pub total_weight-next :
    (runs : Bool) (generation : ℕ) (xs : List Operation)
    → ArePast generation xs
    → total_weight runs (suc generation) xs ≡ 0
unfolding total_weight
total_weight-next runs g [] p = refl
total_weight-next runs g (x ∷ xs) p =
    omega (arith, weight-next runs g x.after p.0, total_weight-next runs g xs p.1)

pub IsPast-next :
    (generation : ℕ) (k : Continuation) → IsPast generation k → IsPast (suc generation) k
IsPast-next g (attempts h b) p = omega arith
IsPast-next g (probes h) p = omega arith
IsPast-next g releases_again p = tt
IsPast-next g ends p = tt

pub ArePast-next :
    (generation : ℕ) (xs : List Operation) → ArePast generation xs → ArePast (suc generation) xs
ArePast-next g [] p = tt
ArePast-next g (x ∷ xs) p = (IsPast-next g x.after p.0, ArePast-next g xs p.1)

pub ArePast-append :
    (generation : ℕ) (xs : List Operation) (y : Operation)
    → ArePast generation xs
    → IsPast generation y.after
    → ArePast generation (xs ++ y ∷ [])
ArePast-append g [] y p q = (q, tt)
ArePast-append g (x ∷ xs) y p q = (p.0, ArePast-append g xs y p.1 q)

pub Waits-append :
    (runs : Bool) (generation lock : ℕ) (xs ys : List Operation)
    → Waits runs generation lock xs
    → Waits runs generation lock (xs ++ ys)
Waits-append runs g l [] ys w = absurd w
Waits-append runs g l (x ∷ xs) ys (inl e) = inl e
Waits-append runs g l (x ∷ xs) ys (inr (e, w)) = inr (e, Waits-append runs g l xs ys w)

pub Waits-next :
    (runs runs' : Bool) (generation lock : ℕ) (xs : List Operation)
    → ArePast generation xs
    → Waits runs generation lock xs
    → Waits runs' (suc generation) lock xs
Waits-next runs runs' g l [] p w = absurd w
Waits-next runs runs' g l (x ∷ xs) p (inl e) = inl e
Waits-next runs runs' g l (x ∷ xs) p (inr (e, w)) =
    inr (weight-next runs' g x.after p.0, Waits-next runs runs' g l xs p.1 w)

-- Behind operations of earlier generations only, an operation's own release is awaited.
pub Waits-last :
    (runs : Bool) (generation lock : ℕ) (xs : List Operation) (y : Operation)
    → ArePast generation xs
    → y.release ≡ some lock
    → Waits runs (suc generation) lock (xs ++ y ∷ [])
Waits-last runs g l [] y p e = inl e
Waits-last runs g l (x ∷ xs) y p e =
    inr (weight-next runs g x.after p.0, Waits-last runs g l xs y p.1 e)

-- Nothing stands behind an operation that goes on with the election.
abbrev pub LiveLast : Bool → ℕ → List Operation → Type 0
LiveLast runs generation [] = Unit
LiveLast runs generation (x ∷ xs) =
    (weight runs generation x.after ≡ 1 → xs ≡ []) × LiveLast runs generation xs

pub append-LiveLast :
    (runs : Bool) (generation : ℕ) (xs : List Operation) (y : Operation)
    → total_weight runs generation xs ≡ 0
    → LiveLast runs generation (xs ++ y ∷ [])
unfolding total_weight
append-LiveLast runs g [] y e = (λ _. refl, tt)
append-LiveLast runs g (x ∷ xs) y e =
    (λ w. absurd (omega arith), append-LiveLast runs g xs y (omega arith))

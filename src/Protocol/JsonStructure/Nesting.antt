-- ===== src/Protocol/JsonStructure/Nesting.antt =====
-- src/protocol/jsonStructure.ts: structural tokens that are nested, as a grammar and as a count.
use cursor_setting_sync.Base.{
  ℕ, zero, suc, ◌+◌, ◌≤◌, ◌≡◌, refl, sym, ◌↔◌, Bool, true, false, ◌&&◌, List, [], ◌∷◌, ◌++◌, leb,
  nat_beq, arith, ++-assoc, ++-nil,
}
use cursor_setting_sync.Protocol.JsonStructure.{Token, opens, closes, separates}

-- Texts whose containers are all closed, and that are nested at most so deep.
pub data Nested : ℕ → List Token → Type 0 where
  done : {d : ℕ} → Nested d []
  apart : {d : ℕ} {ts : List Token} → Nested d ts → Nested d (separates ∷ ts)
  within :
      {d : ℕ} {inner ts : List Token}
      → Nested d inner
      → Nested (suc d) ts
      → Nested (suc d) (opens ∷ inner ++ closes ∷ ts)

-- The count of open containers, which stays at most `max_depth`, does not go below 0, and ends at 0.
unfoldable pub balances : ℕ → ℕ → List Token → Bool
balances max_depth depth [] = nat_beq depth 0
balances max_depth depth (opens ∷ ts) =
    let rest = balances max_depth (suc depth) ts in leb (suc depth) max_depth && rest
balances max_depth zero (closes ∷ ts) = false
balances max_depth (suc depth) (closes ∷ ts) = balances max_depth depth ts
balances max_depth depth (separates ∷ ts) = balances max_depth depth ts

-- What is left after `depth` containers were opened, of which the inmost may hold `d` more levels.
abbrev Closing : ℕ → ℕ → List Token → Type 0
Closing d zero ts = Nested d ts
Closing d (suc depth) ts =
    (inner : List Token) × (rest : List Token) × (ts ≡ inner ++ closes ∷ rest)
    × Nested d inner
    × Closing (suc d) depth rest

-- What may stand before a nested text may stand before what is left.
prepend-Closing :
    (d depth : ℕ) (before ts : List Token)
    → ((us : List Token) → Nested d us → Nested d (before ++ us))
    → Closing d depth ts
    → Closing d depth (before ++ ts)
prepend-Closing d zero before ts add h = add ts h
prepend-Closing d (suc depth) before ts add (inner, rest, e, n, c) =
    (before ++ inner, rest, rw (e, ++-assoc) refl, add inner n, c)

balances-Closing :
    (max_depth d depth : ℕ) (ts : List Token)
    → d + depth ≡ max_depth
    → balances max_depth depth ts ≡ true
    → Closing d depth ts
unfolding balances
balances-Closing m d zero [] e h = done
balances-Closing m d (suc depth) [] e h = absurd (ground arith)
balances-Closing m zero depth (opens ∷ ts) e h = absurd (ground arith)
balances-Closing m (suc d) depth (opens ∷ ts) e h =
    let (inner, rest, p, n, c) = balances-Closing m d (suc depth) ts (omega arith) (ground arith) in
    rw p (
      rw (sym (++-assoc (opens ∷ inner) (closes ∷ []) rest)) (
        prepend-Closing (suc d) depth (opens ∷ inner ++ closes ∷ []) rest
          (λ us k. rw (++-assoc inner (closes ∷ []) us) (within n k)) c))
balances-Closing m d zero (closes ∷ ts) e h = absurd (cc)
balances-Closing m d (suc depth) (closes ∷ ts) e h =
    ([], ts, refl, done, balances-Closing m (suc d) depth ts (omega arith) h)
balances-Closing m d depth (separates ∷ ts) e h =
    prepend-Closing d depth (separates ∷ []) ts (λ us k. apart k)
      (balances-Closing m d depth ts e h)

balances-Nested :
    (max_depth depth : ℕ) {d : ℕ} {ts : List Token} (rest : List Token)
    → depth + d ≤ max_depth
    → Nested d ts
    → balances max_depth depth (ts ++ rest) ≡ balances max_depth depth rest
unfolding balances
balances-Nested m depth rest le done = refl
balances-Nested m depth rest le (apart n) = balances-Nested m depth rest le n
balances-Nested m depth rest le (within {d} {inner} {ts} n k) =
    let inside = balances-Nested m (suc depth) (closes ∷ ts ++ rest) (omega arith) n in
    let after = balances-Nested m depth rest le k in
    rw (++-assoc inner (closes ∷ ts) rest) (ground (arith, inside, after))

-- Tokens balance within a depth exactly if they are nested at most so deep.
pub balances_iff :
    (max_depth : ℕ) (ts : List Token) → (balances max_depth 0 ts ≡ true) ↔ Nested max_depth ts
unfolding balances
balances_iff m ts = (
  λ h. balances-Closing m m 0 ts (omega arith) h,
  λ n. rw⁻¹ (++-nil ts) (rw (balances-Nested m 0 [] (omega arith) n) refl),
)

-- ===== src/Protocol/JsonStructure/Spending.antt =====
-- src/protocol/jsonStructure.ts: one pass against reading the tokens first and counting them then.
use cursor_setting_sync.Base.{
  ℕ, suc, ◌+◌, ◌-◌, ◌≤◌, ◌≡◌, refl, ◌↔◌, inl, inr, Bool, true, false, ◌&&◌, ◌||◌, Option, none,
  some, List, [], ◌∷◌, nat_beq, length, if◌then◌else◌, arith, Bool-cases, if_keeps,
}
use cursor_setting_sync.Protocol.JsonStructure.{
  Mode, plain, Token, opens, closes, separates, Reading, read, Counters, charge, next_of, ends_well,
  scan, Budget, consume, consume_all, create_json_structure_budget, BudgetOptions, or_default,
  json_structure_max_tokens, buffers_fit_json_structure_budget,
}
use cursor_setting_sync.Protocol.JsonStructure.Rounds.{cons_token, tokens, last_mode}
use cursor_setting_sync.Protocol.JsonStructure.Nesting.{balances, Nested, balances_iff}

-- What a scan that returns true says of the tokens, and back.
abbrev Spends : ℕ → Counters → List Token → Mode → Counters × Bool → Type 0
Spends max_depth c ts end (left, fits) =
    (fits ≡ true → left.remaining + length ts ≡ c.remaining)
    × (fits ≡ true → balances max_depth c.depth ts && ends_well end ≡ true)
    × (length ts ≤ c.remaining
        → balances max_depth c.depth ts && ends_well end ≡ true
        → fits ≡ true)

module _ (max_depth : ℕ) (c : Counters) (ts : List Token) (end : Mode)
    (later : Counters → Counters × Bool) where
  charge-Spends :
      (t : Option Token)
      → ((d : Counters) → Spends max_depth d ts end (later d))
      → Spends max_depth c (cons_token t ts) end (
          let (charged, goes_on) = charge max_depth c t in
          if goes_on then later charged else (charged, false))
  unfolding balances
  charge-Spends none h = h c
  charge-Spends (some separates) h =
      ground (arith, h (record { remaining = c.remaining - 1; depth = c.depth }))
  charge-Spends (some opens) h =
      ground (arith, h (record { remaining = c.remaining - 1; depth = suc c.depth }))
  charge-Spends (some closes) h =
      ground (arith, h (record { remaining = c.remaining - 1; depth = c.depth - 1 }))

scan-Spends :
    (allow : Bool) (max_depth : ℕ) (mode : Mode) (skips : Bool) (c : Counters) (cs : List ℕ)
    → Spends max_depth c
        (tokens allow mode skips cs)
        (last_mode allow mode skips cs)
        (scan allow max_depth mode skips c cs)
unfolding scan tokens last_mode balances
scan-Spends allow m mode skips c [] = ground arith
scan-Spends allow m mode true c (x ∷ cs) = scan-Spends allow m mode false c cs
scan-Spends allow m mode false c (x ∷ cs) =
    let r : Reading = read allow mode x (next_of cs) in
    charge-Spends m c (tokens allow r.mode r.skips cs) (last_mode allow r.mode r.skips cs)
      (λ d. scan allow m r.mode r.skips d cs) r.token (λ d. scan-Spends allow m r.mode r.skips d cs)

abbrev pub tokens_of : Budget → List ℕ → List Token
tokens_of b input = tokens b.allow_comments plain false input

-- What a text has to be, whatever is left of the budget: the bounds are bounds, its containers are
-- nested at most so deep, and it ends outside strings and block comments.
abbrev pub IsBounded : Budget → List ℕ → Type 0
IsBounded b input =
    (b.is_invalid ≡ false)
    × Nested b.max_depth (tokens_of b input)
    × (ends_well (last_mode b.allow_comments plain false input) ≡ true)

-- One for the text and one for each structural token.
abbrev pub cost : Budget → List ℕ → ℕ
cost b input = suc (length (tokens_of b input))

consume_valid :
    (b : Budget) (input : List ℕ)
    → b.is_invalid ≡ false
    → nat_beq b.remaining 0 ≡ false
    → consume b input ≡ (
        let (c, fits) =
          scan b.allow_comments b.max_depth plain false
            (record { remaining = b.remaining - 1; depth = 0 })
            input in
        (record b { remaining = c.remaining }, fits))
unfolding consume
consume_valid b input v r =
    if_keeps (λ x. x ≡ scanned) (b.is_invalid || nat_beq b.remaining 0) (λ t. absurd (ground arith))
      (λ _. refl)
  where
    scanned : Budget × Bool
    scanned =
        let (c, fits) =
          scan b.allow_comments b.max_depth plain false
            (record { remaining = b.remaining - 1; depth = 0 }) input in
        (record b { remaining = c.remaining }, fits)

consume_refused :
    (b : Budget) (input : List ℕ)
    → b.is_invalid || nat_beq b.remaining 0 ≡ true
    → consume b input ≡ (b, false)
unfolding consume
consume_refused b input t =
    if_keeps (λ x. x ≡ (b, false)) (b.is_invalid || nat_beq b.remaining 0) (λ _. refl)
      (λ f. absurd (ground arith))

-- A text is accepted exactly if it is bounded and its cost is left in the budget, and then its cost
-- is taken from what is left.
pub consume-IsBounded :
    (b : Budget) (input : List ℕ)
    → (((consume b input).1 ≡ true) ↔ (IsBounded b input × (cost b input ≤ b.remaining)))
      × ((consume b input).1 ≡ true → (consume b input).0.remaining + cost b input ≡ b.remaining)
consume-IsBounded b input = elim (Bool-cases (b.is_invalid || nat_beq b.remaining 0)) [
  | inl t ↦ rw (consume_refused b input t) (((λ h. cc), (λ h. absurd (ground arith))), (λ h. cc))
  | inr f ↦
      let s =
        scan-Spends b.allow_comments b.max_depth plain false
          (record { remaining = b.remaining - 1; depth = 0 }) input in
      let n = balances_iff b.max_depth (tokens_of b input) in
      rw (consume_valid b input (ground arith) (ground arith))
        ((λ h. ground (arith, s, n), λ h. ground (arith, s, n)), λ h. ground (arith, s))
]

abbrev pub total_cost : Budget → List (List ℕ) → ℕ
total_cost b [] = 0
total_cost b (input ∷ inputs) = cost b input + total_cost b inputs

abbrev pub AreBounded : Budget → List (List ℕ) → Type 0
AreBounded b [] = Unit
AreBounded b (input ∷ inputs) = IsBounded b input × AreBounded b inputs

-- A budget of which less is left.
abbrev lowered : Budget → ℕ → Budget
lowered b n = record b { remaining = n }

consume-lowered :
    (b : Budget) (input : List ℕ) → (consume b input).0 ≡ lowered b (consume b input).0.remaining
unfolding consume
consume-lowered b input = ground arith

consume_all_iff :
    (b : Budget) (inputs : List (List ℕ)) (n : ℕ)
    → (consume_all (lowered b n) inputs ≡ true) ↔ (AreBounded b inputs × (total_cost b inputs ≤ n))
unfolding consume_all
consume_all_iff b [] n = (λ h. (tt, omega arith), λ h. refl)
consume_all_iff b (x ∷ xs) n =
    let one = consume-IsBounded (lowered b n) x in
    let left : ℕ = (consume (lowered b n) x).0.remaining in
    let more = consume_all_iff b xs left in
    let same = consume-lowered (lowered b n) x in
    (λ h. ground (arith, one, more, same), λ h. ground (arith, one, more, same))

-- The same of the budget that some options make.
pub buffers_fit-AreBounded :
    (inputs : List (List ℕ)) (options : BudgetOptions)
    → (buffers_fit_json_structure_budget inputs options ≡ true) ↔ (
        AreBounded (create_json_structure_budget options) inputs
        × (total_cost (create_json_structure_budget options) inputs
            ≤ or_default options.max_structural_tokens json_structure_max_tokens))
unfolding buffers_fit_json_structure_budget create_json_structure_budget
buffers_fit-AreBounded inputs options =
    consume_all_iff (create_json_structure_budget options) inputs
      (or_default options.max_structural_tokens json_structure_max_tokens)

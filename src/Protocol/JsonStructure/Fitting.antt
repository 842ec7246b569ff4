-- ===== src/Protocol/JsonStructure/Fitting.antt =====
-- src/protocol/jsonStructure.ts: the lists of texts that a budget accepts, in terms of the grammar.
use cursor_setting_sync.Base.{
  ℕ, suc, ◌+◌, ◌≤◌, ◌≡◌, refl, ◌↔◌, true, false, List, [], ◌∷◌, length, map, arith,
}
use cursor_setting_sync.Protocol.JsonStructure.{
  Token, Budget, create_json_structure_budget, BudgetOptions, or_default, json_structure_max_tokens,
  buffers_fit_json_structure_budget,
}
use cursor_setting_sync.Protocol.JsonStructure.Lexing.{Lexed, outside}
use cursor_setting_sync.Protocol.JsonStructure.Making.{Lexed_iff}
use cursor_setting_sync.Protocol.JsonStructure.Nesting.{Nested}
use cursor_setting_sync.Protocol.JsonStructure.Spending.{
  tokens_of, AreBounded, total_cost, buffers_fit-AreBounded,
}

-- Each text is made of tokens that are nested at most so deep, and the bounds are bounds.
abbrev pub AreMade : Budget → List (List ℕ) → List (List Token) → Type 0
AreMade b [] [] = Unit
AreMade b [] (ts ∷ tss) = ⊥
AreMade b (input ∷ inputs) [] = ⊥
AreMade b (input ∷ inputs) (ts ∷ tss) =
    (b.is_invalid ≡ false)
    × Lexed b.allow_comments outside input ts
    × Nested b.max_depth ts
    × AreMade b inputs tss

-- One for each text and one for each structural token.
abbrev pub price : List (List Token) → ℕ
price [] = 0
price (ts ∷ tss) = suc (length ts) + price tss

bounded-AreMade :
    (b : Budget) (inputs : List (List ℕ))
    → AreBounded b inputs
    → AreMade b inputs (map (tokens_of b) inputs)
bounded-AreMade b [] h = tt
bounded-AreMade b (input ∷ inputs) ((v, n, e), h) =
    (v, (Lexed_iff b.allow_comments input _).1 (refl, e), n, bounded-AreMade b inputs h)

price-tokens_of :
    (b : Budget) (inputs : List (List ℕ)) → price (map (tokens_of b) inputs) ≡ total_cost b inputs
price-tokens_of b [] = refl
price-tokens_of b (input ∷ inputs) = omega (arith, price-tokens_of b inputs)

made-AreBounded :
    (b : Budget) (inputs : List (List ℕ)) (tss : List (List Token))
    → AreMade b inputs tss
    → AreBounded b inputs × (total_cost b inputs ≡ price tss)
made-AreBounded b [] [] h = (tt, refl)
made-AreBounded b [] (ts ∷ tss) h = absurd h
made-AreBounded b (input ∷ inputs) [] h = absurd h
made-AreBounded b (input ∷ inputs) (ts ∷ tss) (v, l, n, h) =
    let (p, q) = (Lexed_iff b.allow_comments input ts).0 l in
    let (rest, same) = made-AreBounded b inputs tss h in
    (((v, rw p n, q), rest), rw p (omega (arith, same)))

-- A list of texts fits the budget of some options exactly if every text is made of complete strings
-- and block comments, of line comments, structural tokens and other units, with the comments only
-- where the options allow them; if its containers are nested at most as deep as they say, the
-- options being bounds if there is a text; and if one for each text and one for each structural token
-- are together at most the number of tokens that they say.
pub buffers_fit_iff :
    (inputs : List (List ℕ)) (options : BudgetOptions)
    → (buffers_fit_json_structure_budget inputs options ≡ true) ↔ (
        (tss : List (List Token)) × AreMade (create_json_structure_budget options) inputs tss
        × (price tss ≤ or_default options.max_structural_tokens json_structure_max_tokens))
buffers_fit_iff inputs options =
    let b = create_json_structure_budget options in
    let fits = buffers_fit-AreBounded inputs options in
    (
      λ h.
          let (bounded, cost) = fits.0 h in
          (
            map (tokens_of b) inputs,
            bounded-AreMade b inputs bounded,
            omega (arith, cost, price-tokens_of b inputs),
          ),
      λ (tss, made, cost).
          let (bounded, same) = made-AreBounded b inputs tss made in
          fits.1 (bounded, omega (arith, cost, same)),
    )

-- ===== src/Protocol/JsonStructure.antt =====
-- src/protocol/jsonStructure.ts: the scan that bounds the structure of a JSON text before it is
-- parsed. An input is its code units or bytes.
pub mod Spending
pub mod Nesting
pub mod Lexing
pub mod Rounds
pub mod Making
pub mod Fitting
use cursor_setting_sync.Base.{
  ℕ, zero, suc, ◌-◌, ◌^◌, Bool, true, false, ◌&&◌, ◌||◌, not, Option, none, some, List, [], ◌∷◌,
  ltb, leb, nat_beq, if◌then◌else◌,
}

-- `JSON_STRUCTURE_MAX_TOKENS` and `JSON_STRUCTURE_MAX_DEPTH`.
abbrev pub json_structure_max_tokens : ℕ
json_structure_max_tokens = 65536

abbrev pub json_structure_max_depth : ℕ
json_structure_max_depth = 256

-- `JsonStructureBudgetOptions`; a bound is a number that is whole and not negative.
pub record BudgetOptions : Type 0 where
  pub max_structural_tokens : Option ℕ
  pub max_nesting_depth : Option ℕ
  pub allow_comments : Bool

-- Where the scan stands: `inString` with `escaped`, `inLineComment`, `inBlockComment`, or in none.
pub data Mode : Type 0 where
  plain line_comment block_comment : Mode
  in_string : Bool → Mode

pub data Token : Type 0 where
  opens closes separates : Token

-- What one round of the loop reads: the mode after it, whether it also takes the next unit, and the
-- structural token.
pub record Reading : Type 0 where
  pub mode : Mode
  pub skips : Bool
  pub token : Option Token

abbrev pub stays : Mode → Reading
stays mode = record { mode = mode; skips = false; token = none }

abbrev pub skipping : Mode → Reading
skipping mode = record { mode = mode; skips = true; token = none }

abbrev pub marks : Token → Reading
marks token = record { mode = plain; skips = false; token = some token }

-- `structureCodeAt(input, index + 1) === code`.
abbrev pub next_is : Option ℕ → ℕ → Bool
next_is none code = false
next_is (some next) code = nat_beq next code

unfoldable pub read_string : Bool → ℕ → Reading
read_string escaped code =
    if escaped
    then stays (in_string false)
    else if nat_beq code 0x5c
    then stays (in_string true)
    else if nat_beq code 0x22
    then stays plain
    else stays (in_string false)

unfoldable pub read_plain : Bool → ℕ → Option ℕ → Reading
read_plain allow_comments code next =
    if nat_beq code 0x22
    then stays (in_string false)
    else if allow_comments && nat_beq code 0x2f && next_is next 0x2f
    then skipping line_comment
    else if allow_comments && nat_beq code 0x2f && next_is next 0x2a
    then skipping block_comment
    else if nat_beq code 0x7b || nat_beq code 0x5b
    then marks opens
    else if nat_beq code 0x7d || nat_beq code 0x5d
    then marks closes
    else if nat_beq code 0x2c || nat_beq code 0x3a
    then marks separates
    else stays plain

unfoldable pub read : Bool → Mode → ℕ → Option ℕ → Reading
read allow_comments (in_string escaped) code next = read_string escaped code
read allow_comments line_comment code next =
    if nat_beq code 0x0a || nat_beq code 0x0d then stays plain else stays line_comment
read allow_comments block_comment code next =
    if nat_beq code 0x2a && next_is next 0x2f then skipping plain else stays block_comment
read allow_comments plain code next = read_plain allow_comments code next

pub record Counters : Type 0 where
  pub remaining : ℕ
  pub depth : ℕ

-- The tests on a token, in their order; the flag is false where the scan returns false.
abbrev pub nest : ℕ → Counters → Token → Counters × Bool
nest max_depth c opens = (record c { depth = suc c.depth }, leb (suc c.depth) max_depth)
nest max_depth c closes = elim c.depth [
  | zero ↦ (c, false)
  | suc below ↦ (record c { depth = below }, true)
]
nest max_depth c separates = (c, true)

abbrev pub charge : ℕ → Counters → Option Token → Counters × Bool
charge max_depth c none = (c, true)
charge max_depth c (some token) =
    if nat_beq c.remaining 0
    then (c, false)
    else nest max_depth (record c { remaining = c.remaining - 1 }) token

abbrev pub next_of : List ℕ → Option ℕ
next_of [] = none
next_of (code ∷ rest) = some code

abbrev pub ends_well : Mode → Bool
ends_well plain = true
ends_well line_comment = true
ends_well block_comment = false
ends_well (in_string escaped) = false

-- The loop over the input; `skips` takes a unit that an earlier round has read. Of the counters the
-- budget keeps `remaining`.
unfoldable pub scan : Bool → ℕ → Mode → Bool → Counters → List ℕ → Counters × Bool
scan allow_comments max_depth mode skips c [] = (c, nat_beq c.depth 0 && ends_well mode)
scan allow_comments max_depth mode true c (code ∷ rest) =
    scan allow_comments max_depth mode false c rest
scan allow_comments max_depth mode false c (code ∷ rest) =
    let reading = read allow_comments mode code (next_of rest) in
    let (charged, goes_on) = charge max_depth c reading.token in
    let later = scan allow_comments max_depth reading.mode reading.skips charged rest in
    if goes_on then later else (charged, false)

-- What `createJsonStructureBudget` closes over.
pub record Budget : Type 0 where
  pub is_invalid : Bool
  pub max_depth : ℕ
  pub allow_comments : Bool
  pub remaining : ℕ

abbrev pub or_default : Option ℕ → ℕ → ℕ
or_default none value = value
or_default (some given) value = given

-- `!Number.isSafeInteger(bound) || bound <= 0`.
abbrev pub is_no_bound : ℕ → Bool
is_no_bound bound = not (leb bound (2 ^ 53 - 1)) || nat_beq bound 0

unfoldable pub create_json_structure_budget : BudgetOptions → Budget
create_json_structure_budget options =
    let max_tokens = or_default options.max_structural_tokens json_structure_max_tokens in
    let max_depth = or_default options.max_nesting_depth json_structure_max_depth in
    record {
      is_invalid = is_no_bound max_tokens || is_no_bound max_depth;
      max_depth = max_depth;
      allow_comments = options.allow_comments;
      remaining = max_tokens;
    }

unfoldable pub consume : Budget → List ℕ → Budget × Bool
consume budget input =
    if budget.is_invalid || nat_beq budget.remaining 0
    then (budget, false)
    else let (c, fits) =
        scan budget.allow_comments budget.max_depth plain false
          (record { remaining = budget.remaining - 1; depth = 0 }) input in
      (record budget { remaining = c.remaining }, fits)

unfoldable pub consume_all : Budget → List (List ℕ) → Bool
consume_all budget [] = true
consume_all budget (input ∷ inputs) =
    let (left, fits) = consume budget input in
    let rest = consume_all left inputs in if fits then rest else false

unfoldable pub buffers_fit_json_structure_budget : List (List ℕ) → BudgetOptions → Bool
buffers_fit_json_structure_budget inputs options =
    consume_all (create_json_structure_budget options) inputs

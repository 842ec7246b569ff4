-- ===== src/Protocol/JsonStructure/Rounds.antt =====
-- src/protocol/jsonStructure.ts: what the rounds of the loop read, against the grammar of texts.
use cursor_setting_sync.Base.{
  ℕ, ◌≡◌, refl, ◌⊎◌, inl, inr, Bool, true, false, Option, none, some, List, [], ◌∷◌, nat_beq_iff,
  arith, ap,
}
use cursor_setting_sync.Protocol.JsonStructure.{
  Mode, plain, line_comment, block_comment, in_string, Token, opens, closes, separates, stays,
  marks, read, read_plain, read_string, next_of, ends_well,
}
use cursor_setting_sync.Protocol.JsonStructure.Lexing.{
  Lexed, Region, outside, string, comment, block, IsToken, brace, bracket, end_brace, end_bracket,
  comma, colon, StartsComment, done, quote, line, begin, token, other, unquote, escape, inside,
  last, newline, remark, finish, goes_on,
}

abbrev pub cons_token : Option Token → List Token → List Token
cons_token none ts = ts
cons_token (some t) ts = t ∷ ts

-- The structural tokens of a text, and the mode in which it ends.
unfoldable pub tokens : Bool → Mode → Bool → List ℕ → List Token
tokens allow mode skips [] = []
tokens allow mode true (code ∷ rest) = tokens allow mode false rest
tokens allow mode false (code ∷ rest) =
    let reading = read allow mode code (next_of rest) in
    let later = tokens allow reading.mode reading.skips rest in cons_token reading.token later

unfoldable pub last_mode : Bool → Mode → Bool → List ℕ → Mode
last_mode allow mode skips [] = mode
last_mode allow mode true (code ∷ rest) = last_mode allow mode false rest
last_mode allow mode false (code ∷ rest) =
    let reading = read allow mode code (next_of rest) in
    last_mode allow reading.mode reading.skips rest

abbrev pub mode_of : Region → Mode
mode_of outside = plain
mode_of string = in_string false
mode_of comment = line_comment
mode_of block = block_comment

pub decide : (m n : ℕ) → (m ≡ n) ⊎ ¬ (m ≡ n)
decide m n = ground (arith, nat_beq_iff m n)

pub token-read :
    (allow : Bool) (code : ℕ) (next : Option ℕ) (t : Token)
    → IsToken code t
    → read_plain allow code next ≡ marks t
unfolding read_plain
token-read allow code next t brace = ground arith
token-read allow code next t bracket = ground arith
token-read allow code next t end_brace = ground arith
token-read allow code next t end_bracket = ground arith
token-read allow code next t comma = ground arith
token-read allow code next t colon = ground arith

IsToken-code :
    (code : ℕ) (t : Token)
    → IsToken code t
    → (code ≡ 0x7b) ⊎ (code ≡ 0x5b) ⊎ (code ≡ 0x7d) ⊎ (code ≡ 0x5d) ⊎ (code ≡ 0x2c) ⊎ (code ≡ 0x3a)
IsToken-code code t brace = ground arith
IsToken-code code t bracket = ground arith
IsToken-code code t end_brace = ground arith
IsToken-code code t end_bracket = ground arith
IsToken-code code t comma = ground arith
IsToken-code code t colon = ground arith

pub IsToken-cases : (code : ℕ) → ((t : Token) × IsToken code t) ⊎ ((t : Token) → ¬ IsToken code t)
IsToken-cases code =
    by_code (decide code 0x7b) (decide code 0x5b) (decide code 0x7d) (decide code 0x5d)
      (decide code 0x2c) (decide code 0x3a)
  where
    by_code :
        (code ≡ 0x7b) ⊎ ¬ (code ≡ 0x7b)
        → (code ≡ 0x5b) ⊎ ¬ (code ≡ 0x5b)
        → (code ≡ 0x7d) ⊎ ¬ (code ≡ 0x7d)
        → (code ≡ 0x5d) ⊎ ¬ (code ≡ 0x5d)
        → (code ≡ 0x2c) ⊎ ¬ (code ≡ 0x2c)
        → (code ≡ 0x3a) ⊎ ¬ (code ≡ 0x3a)
        → ((t : Token) × IsToken code t) ⊎ ((t : Token) → ¬ IsToken code t)
    by_code (inl e) b c d f g = inl (opens, rw e brace)
    by_code (inr a) (inl e) c d f g = inl (opens, rw e bracket)
    by_code (inr a) (inr b) (inl e) d f g = inl (closes, rw e end_brace)
    by_code (inr a) (inr b) (inr c) (inl e) f g = inl (closes, rw e end_bracket)
    by_code (inr a) (inr b) (inr c) (inr d) (inl e) g = inl (separates, rw e comma)
    by_code (inr a) (inr b) (inr c) (inr d) (inr f) (inl e) = inl (separates, rw e colon)
    by_code (inr a) (inr b) (inr c) (inr d) (inr f) (inr g) =
        inr (λ t i. let k = IsToken-code code t i in ground arith)

pub other-read :
    (allow : Bool) (code : ℕ) (cs : List ℕ)
    → ¬ (code ≡ 0x22)
    → ((t : Token) → ¬ IsToken code t)
    → ¬ StartsComment allow code cs
    → read_plain allow code (next_of cs) ≡ stays plain
unfolding read_plain
other-read allow code [] q n s =
    let a : ¬ (code ≡ 0x7b) = λ e. n opens (rw e brace) in
    let b : ¬ (code ≡ 0x5b) = λ e. n opens (rw e bracket) in
    let c : ¬ (code ≡ 0x7d) = λ e. n closes (rw e end_brace) in
    let d : ¬ (code ≡ 0x5d) = λ e. n closes (rw e end_bracket) in
    let f : ¬ (code ≡ 0x2c) = λ e. n separates (rw e comma) in
    let g : ¬ (code ≡ 0x3a) = λ e. n separates (rw e colon) in ground arith
other-read allow code (x ∷ cs) q n s =
    let a : ¬ (code ≡ 0x7b) = λ e. n opens (rw e brace) in
    let b : ¬ (code ≡ 0x5b) = λ e. n opens (rw e bracket) in
    let c : ¬ (code ≡ 0x7d) = λ e. n closes (rw e end_brace) in
    let d : ¬ (code ≡ 0x5d) = λ e. n closes (rw e end_bracket) in
    let f : ¬ (code ≡ 0x2c) = λ e. n separates (rw e comma) in
    let g : ¬ (code ≡ 0x3a) = λ e. n separates (rw e colon) in ground arith

module _ (allow : Bool) where
  -- What the loop makes of the rest of a text in a region.
  abbrev pub Reads : Region → List ℕ → List Token → Type 0
  Reads r cs ts =
      (tokens allow (mode_of r) false cs ≡ ts)
      × (ends_well (last_mode allow (mode_of r) false cs) ≡ true)

  pub Lexed-Reads :
      (r : Region) (cs : List ℕ) (ts : List Token) → Lexed allow r cs ts → Reads r cs ts
  unfolding tokens last_mode read read_string read_plain
  Lexed-Reads r cs ts done = (refl, refl)
  Lexed-Reads r cs ts (quote l) = Lexed-Reads string _ ts l
  Lexed-Reads r cs ts (line a l) = ground (arith, a, Lexed-Reads comment _ ts l)
  Lexed-Reads r cs ts (begin a l) = ground (arith, a, Lexed-Reads block _ ts l)
  Lexed-Reads r (x ∷ cs) (t ∷ ts) (token i l) =
      rw (token-read allow x (next_of cs) t i)
        (let (p, q) = Lexed-Reads outside cs ts l in (ap (◌∷◌ t) p, q))
  Lexed-Reads r (x ∷ cs) ts (other q n s l) =
      rw (other-read allow x cs q n s) (Lexed-Reads outside cs ts l)
  Lexed-Reads r cs ts (unquote l) = Lexed-Reads outside _ ts l
  Lexed-Reads r cs ts (escape l) = Lexed-Reads string _ ts l
  Lexed-Reads r (x ∷ cs) ts (inside n m l) = ground (arith, Lexed-Reads string cs ts l)
  Lexed-Reads r cs ts last = (refl, refl)
  Lexed-Reads r (x ∷ cs) ts (newline n l) = ground (arith, n, Lexed-Reads outside cs ts l)
  Lexed-Reads r (x ∷ cs) ts (remark n m l) = ground (arith, Lexed-Reads comment cs ts l)
  Lexed-Reads r cs ts (finish l) = Lexed-Reads outside _ ts l
  Lexed-Reads r (x ∷ []) ts (goes_on n l) = ground (arith, Lexed-Reads block [] ts l)
  Lexed-Reads r (x ∷ y ∷ cs) ts (goes_on n l) = ground (arith, n, Lexed-Reads block (y ∷ cs) ts l)

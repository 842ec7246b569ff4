-- ===== src/Protocol/JsonStructure/Lexing.antt =====
-- src/protocol/jsonStructure.ts: what strings, comments and structural tokens a text is made of, as a
-- grammar.
use cursor_setting_sync.Base.{ℕ, ◌≡◌, ◌⊎◌, Bool, true, List, [], ◌∷◌}
use cursor_setting_sync.Protocol.JsonStructure.{Token, opens, closes, separates}

-- What a code unit is outside strings and comments, if it is structural.
pub data IsToken : ℕ → Token → Type 0 where
  brace : IsToken 0x7b opens
  bracket : IsToken 0x5b opens
  end_brace : IsToken 0x7d closes
  end_bracket : IsToken 0x5d closes
  comma : IsToken 0x2c separates
  colon : IsToken 0x3a separates

-- Where a place in a text is.
pub data Region : Type 0 where
  outside string comment block : Region

-- The two units begin a comment, where comments are allowed.
abbrev pub StartsComment : Bool → ℕ → List ℕ → Type 0
StartsComment allow code [] = ⊥
StartsComment allow code (next ∷ rest) =
    (allow ≡ true) × (code ≡ 0x2f) × ((next ≡ 0x2f) ⊎ (next ≡ 0x2a))

abbrev pub EndsBlock : ℕ → List ℕ → Type 0
EndsBlock code [] = ⊥
EndsBlock code (next ∷ rest) = (code ≡ 0x2a) × (next ≡ 0x2f)

-- The rest of a text from a place in the region, with the structural tokens that it has. A text ends
-- outside strings and block comments. In a string a backslash takes the unit after it with it.
pub data Lexed (allow : Bool) : Region → List ℕ → List Token → Type 0 where
  done : Lexed allow outside [] []
  quote :
      {cs : List ℕ} {ts : List Token}
      → Lexed allow string cs ts
      → Lexed allow outside (0x22 ∷ cs) ts
  line :
      {cs : List ℕ} {ts : List Token}
      → allow ≡ true
      → Lexed allow comment cs ts
      → Lexed allow outside (0x2f ∷ 0x2f ∷ cs) ts
  begin :
      {cs : List ℕ} {ts : List Token}
      → allow ≡ true
      → Lexed allow block cs ts
      → Lexed allow outside (0x2f ∷ 0x2a ∷ cs) ts
  token :
      {code : ℕ} {t : Token} {cs : List ℕ} {ts : List Token}
      → IsToken code t
      → Lexed allow outside cs ts
      → Lexed allow outside (code ∷ cs) (t ∷ ts)
  other :
      {code : ℕ} {cs : List ℕ} {ts : List Token}
      → ¬ (code ≡ 0x22)
      → ((t : Token) → ¬ IsToken code t)
      → ¬ StartsComment allow code cs
      → Lexed allow outside cs ts
      → Lexed allow outside (code ∷ cs) ts
  unquote :
      {cs : List ℕ} {ts : List Token}
      → Lexed allow outside cs ts
      → Lexed allow string (0x22 ∷ cs) ts
  escape :
      {code : ℕ} {cs : List ℕ} {ts : List Token}
      → Lexed allow string cs ts
      → Lexed allow string (0x5c ∷ code ∷ cs) ts
  inside :
      {code : ℕ} {cs : List ℕ} {ts : List Token}
      → ¬ (code ≡ 0x22)
      → ¬ (code ≡ 0x5c)
      → Lexed allow string cs ts
      → Lexed allow string (code ∷ cs) ts
  last : Lexed allow comment [] []
  newline :
      {code : ℕ} {cs : List ℕ} {ts : List Token}
      → (code ≡ 0x0a) ⊎ (code ≡ 0x0d)
      → Lexed allow outside cs ts
      → Lexed allow comment (code ∷ cs) ts
  remark :
      {code : ℕ} {cs : List ℕ} {ts : List Token}
      → ¬ (code ≡ 0x0a)
      → ¬ (code ≡ 0x0d)
      → Lexed allow comment cs ts
      → Lexed allow comment (code ∷ cs) ts
  finish :
      {cs : List ℕ} {ts : List Token}
      → Lexed allow outside cs ts
      → Lexed allow block (0x2a ∷ 0x2f ∷ cs) ts
  goes_on :
      {code : ℕ} {cs : List ℕ} {ts : List Token}
      → ¬ EndsBlock code cs
      → Lexed allow block cs ts
      → Lexed allow block (code ∷ cs) ts

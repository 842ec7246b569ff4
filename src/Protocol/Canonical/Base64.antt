-- ===== src/Protocol/Canonical/Base64.antt =====
-- src/protocol/canonical.ts, `isCanonicalBase64Text`: the scan, and the regular expression in its
-- comment that it replaces.
use cursor_setting_sync.Base.{
  ℕ, suc, ◌-◌, ◌%◌, ◌≤◌, ◌≡◌, refl, ◌∙◌, inl, inr, Bool, true, false, ◌&&◌, ◌||◌, Option, none,
  some, [], ◌∷◌, arith, ltb, leb, nat_beq, length, get_elem?, take, every, if◌then◌else◌, option_eq,
  nat_eq, Bool-cases,
}
use cursor_setting_sync.Base.Texts.{Text}

abbrev pub is_alphabet : ℕ → Bool
is_alphabet code =
    (leb b'A' code && leb code b'Z')
    || (leb b'a' code && leb code b'z')
    || (leb b'0' code && leb code b'9')
    || nat_beq code b'+'
    || nat_beq code b'/'

-- `value.charCodeAt(index) === 0x3d`.
abbrev pub is_equals_sign : Option ℕ → Bool
is_equals_sign none = false
is_equals_sign (some code) = nat_beq code b'='

unfoldable pub padding : Text → ℕ
padding value =
    if ltb 0 (length value) && is_equals_sign (get_elem? value (length value - 1))
    then (if is_equals_sign (get_elem? value (length value - 2)) then 2 else 1)
    else 0

-- `isCanonicalBase64Text`.
unfoldable pub is_canonical_base64_text : Text → Bool
is_canonical_base64_text value =
    nat_beq (length value % 4) 0 && every is_alphabet (take (length value - padding value) value)

abbrev is_empty : Text → Bool
is_empty [] = true
is_empty (c ∷ cs) = false

-- The pattern: groups of four of the alphabet, of which the last may end in "=" or "==".
pub matches : Text → Bool
matches [] = true
matches (a ∷ b ∷ c ∷ d ∷ rest) =
    let groups = matches rest in
    is_alphabet a
    && is_alphabet b
    && ((is_alphabet c && is_alphabet d && groups)
        || (is_empty rest && nat_beq d b'=' && (nat_beq c b'=' || is_alphabet c)))
matches (a ∷ []) = false
matches (a ∷ b ∷ []) = false
matches (a ∷ b ∷ c ∷ []) = false

double :
    (a b c d : ℕ) → nat_beq d b'=' ≡ true → nat_beq c b'=' ≡ true → padding (a ∷ b ∷ c ∷ d ∷ []) ≡ 2
unfolding padding
double a b c d t u = rw (t, u) refl

one_sign :
    (a b c d : ℕ)
    → nat_beq d b'=' ≡ true
    → nat_beq c b'=' ≡ false
    → padding (a ∷ b ∷ c ∷ d ∷ []) ≡ 1
unfolding padding
one_sign a b c d t u = rw (t, u) refl

no_sign : (a b c d : ℕ) → nat_beq d b'=' ≡ false → padding (a ∷ b ∷ c ∷ d ∷ []) ≡ 0
unfolding padding
no_sign a b c d t = rw t refl

last_group :
    (a b c d : ℕ) → is_canonical_base64_text (a ∷ b ∷ c ∷ d ∷ []) ≡ matches (a ∷ b ∷ c ∷ d ∷ [])
unfolding is_canonical_base64_text matches every
last_group a b c d = elim (Bool-cases (nat_beq d b'=')) [
  | inl t ↦ elim (Bool-cases (nat_beq c b'=')) [
    | inl u ↦ rw (double a b c d t u) ground arith
    | inr u ↦ rw (one_sign a b c d t u) ground arith
  ]
  | inr t ↦ rw (no_sign a b c d t) ground arith
]

padding-group :
    (a b c d r s : ℕ) (rest : Text)
    → padding (a ∷ b ∷ c ∷ d ∷ r ∷ s ∷ rest) ≡ padding (r ∷ s ∷ rest)
unfolding padding
padding-group a b c d r s rest =
    let n = length rest in
    let long : ltb 0 (suc (suc (suc (suc (suc (suc n)))))) ≡ true = ground arith in
    let short : ltb 0 (suc (suc n)) ≡ true = ground arith in
    let e : suc (suc (suc (suc (suc (suc n))))) - 1 ≡ suc (suc (suc (suc (suc n)))) = omega arith in
    let f : suc (suc (suc (suc (suc (suc n))))) - 2 ≡ suc (suc (suc (suc n))) = omega arith in
    let g : suc (suc n) - 1 ≡ suc n = omega arith in
    let h : suc (suc n) - 2 ≡ n = omega arith in rw (long, short, e, f, g, h) refl

scan-group :
    (a b c d : ℕ) (rest : Text)
    → padding (a ∷ b ∷ c ∷ d ∷ rest) ≡ padding rest
    → padding rest ≤ length rest
    → is_canonical_base64_text (a ∷ b ∷ c ∷ d ∷ rest) ≡ (
        is_alphabet a
        && is_alphabet b
        && is_alphabet c
        && is_alphabet d
        && is_canonical_base64_text rest)
unfolding is_canonical_base64_text every
scan-group a b c d rest e le =
    let size : suc (suc (suc (suc (length rest)))) - padding rest
        ≡ suc (suc (suc (suc (length rest - padding rest)))) =
      omega (arith, le) in
    let same : (suc (suc (suc (suc (length rest))))) % 4 ≡ length rest % 4 = omega arith in
    rw (e, size, same) ground arith

padding-le : (value : Text) → padding value ≤ 2
unfolding padding
padding-le value = ground arith

groups_only : (v w x y z : Bool) → (v && w && x && y && z) ≡ (v && w && ((x && y && z) || false))
groups_only false w x y z = refl
groups_only true false x y z = refl
groups_only true true false y z = refl
groups_only true true true false z = refl
groups_only true true true true false = refl
groups_only true true true true true = refl

-- The scan accepts exactly the texts that the pattern matches.
pub is_canonical_base64_text-matches :
    (value : Text) → is_canonical_base64_text value ≡ matches value
unfolding matches
is_canonical_base64_text-matches [] = unfold is_canonical_base64_text padding every in refl
is_canonical_base64_text-matches (a ∷ []) = unfold is_canonical_base64_text in refl
is_canonical_base64_text-matches (a ∷ b ∷ []) = unfold is_canonical_base64_text in refl
is_canonical_base64_text-matches (a ∷ b ∷ c ∷ []) = unfold is_canonical_base64_text in refl
is_canonical_base64_text-matches (a ∷ b ∷ c ∷ d ∷ []) = last_group a b c d
is_canonical_base64_text-matches (a ∷ b ∷ c ∷ d ∷ r ∷ []) =
    unfold is_canonical_base64_text in ground arith
is_canonical_base64_text-matches (a ∷ b ∷ c ∷ d ∷ r ∷ s ∷ rest) =
    let tail = is_canonical_base64_text-matches (r ∷ s ∷ rest) in
    let step =
      scan-group a b c d (r ∷ s ∷ rest) (padding-group a b c d r s rest)
        (omega (arith, padding-le (r ∷ s ∷ rest))) in
    step
    ∙ rw tail (
        groups_only (is_alphabet a) (is_alphabet b) (is_alphabet c) (is_alphabet d)
          (matches (r ∷ s ∷ rest)))

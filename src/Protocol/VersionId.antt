-- ===== src/Protocol/VersionId.antt =====
-- A version's identifier, `${eventHash}#${changeIndex}`, as src/protocol/reconciler.ts prints it for
-- an event and takes it apart for a checkpoint's folded resource.
use cursor_setting_sync.Base.{
  ℕ, zero, suc, ◌+◌, ◌-◌, ◌*◌, ◌/◌, ◌%◌, ◌<◌, ◌≡◌, ◌≢◌, refl, ap, ◌∙◌, ◌&&◌, Option, none, some, [],
  ◌∷◌, ◌++◌, arith, ltb, leb, nat_beq, if◌then◌else◌, length, take-length, drop-length, take, drop,
  All, Bool-cases, inl, inr, ltb→lt,
}
use cursor_setting_sync.Base.Texts.{Text}

unfoldable pub digits : ℕ → ℕ → Text → Text
digits zero n acc = acc
digits (suc f) n acc =
    let rest = digits f (n / 10) ((b'0' + n % 10) ∷ acc) in
    if ltb n 10 then (b'0' + n) ∷ acc else rest

-- A number in a template literal. `suc n` rounds are enough: each drops a digit.
unfoldable pub decimal : ℕ → Text
unfolding digits
decimal n = digits (suc n) n []

unfoldable pub number_from : ℕ → Text → Option ℕ
number_from acc [] = some acc
number_from acc (c ∷ cs) =
    let rest = number_from (acc * 10 + (c - b'0')) cs in
    if leb b'0' c && leb c b'9' then rest else none

-- `Number(text)` on the digits that the checkpoint's validation lets through; `none` is NaN.
unfoldable pub to_number : Text → Option ℕ
unfolding number_from
to_number = number_from 0

unfoldable pub version_id : Text → ℕ → Text
version_id event_hash change_index = event_hash ++ (b'#' ∷ decimal change_index)

-- `text.lastIndexOf("#")`; `none` is -1.
unfoldable pub last_hash : Text → Option ℕ
last_hash [] = none
last_hash (c ∷ cs) = elim (last_hash cs) [
  | some i ↦ some (suc i)
  | none ↦ if nat_beq c b'#' then some 0 else none
]

-- `text.slice(0, separator)`: at -1 it leaves the last unit out.
unfoldable pub before_hash : Text → Text
before_hash v = elim (last_hash v) [ some i ↦ take i v | none ↦ take (length v - 1) v ]

-- `text.slice(separator + 1)`.
unfoldable pub after_hash : Text → Text
after_hash v = elim (last_hash v) [ some i ↦ drop (suc i) v | none ↦ v ]

abbrev NoHash : Text → Type 0
NoHash = All (λ c. c ≢ b'#')

digits-NoHash : (f n : ℕ) (acc : Text) → NoHash acc → NoHash (digits f n acc)
unfolding digits
digits-NoHash zero n acc h = h
digits-NoHash (suc f) n acc h = ground (arith, digits-NoHash f (n / 10) ((b'0' + n % 10) ∷ acc), h)

number_from-digit :
    (a d : ℕ) (acc : Text)
    → d < 10
    → number_from a ((b'0' + d) ∷ acc) ≡ number_from (a * 10 + d) acc
unfolding number_from
number_from-digit a d acc h = let e : b'0' + d - b'0' ≡ d = omega arith in rw e (ground arith)

number_from-digits :
    (f n : ℕ) (acc : Text) → n < f → number_from 0 (digits f n acc) ≡ number_from n acc
unfolding digits
number_from-digits zero n acc h = absurd (omega arith)
number_from-digits (suc f) n acc h = elim (Bool-cases (ltb n 10)) [
  | inl t ↦
      rw t (number_from-digit 0 n acc (ltb→lt n 10 t) ∙ ap (λ k. number_from k acc) (omega arith))
  | inr more ↦ rw more (
      number_from-digits f (n / 10) ((b'0' + n % 10) ∷ acc) (ground arith)
      ∙ number_from-digit (n / 10) (n % 10) acc (omega arith)
      ∙ ap (λ k. number_from k acc) (omega arith))
]

last_hash-NoHash : (v : Text) → NoHash v → last_hash v ≡ none
unfolding last_hash
last_hash-NoHash [] h = refl
last_hash-NoHash (c ∷ cs) h = ground (arith, last_hash-NoHash cs h.1)

last_hash-append : (h v : Text) → NoHash v → last_hash (h ++ (b'#' ∷ v)) ≡ some (length h)
unfolding last_hash
last_hash-append [] v n = ground (arith, last_hash-NoHash v n)
last_hash-append (c ∷ cs) v n = rw (last_hash-append cs v n)

-- The hash of an event and the index of a change are read back from the version's identifier.
pub version_id_parts :
    (h : Text) (i : ℕ)
    → (before_hash (version_id h i) ≡ h) × (to_number (after_hash (version_id h i)) ≡ some i)
unfolding version_id before_hash after_hash decimal to_number
version_id_parts h i =
    let clean = digits-NoHash (suc i) i [] tt in
    let at : last_hash (h ++ (b'#' ∷ digits (suc i) i [])) ≡ some (length h) =
      last_hash-append h (digits (suc i) i []) clean in
    (
      rw (at, before_hash) (take-length h (b'#' ∷ digits (suc i) i [])),
      rw (at, after_hash)
          (ap (number_from 0) (drop-length h (digits (suc i) i []) b'#')
            ∙ number_from-digits (suc i) i [] (omega arith)),
    )

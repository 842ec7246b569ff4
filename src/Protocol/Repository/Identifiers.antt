-- ===== src/Protocol/Repository/Identifiers.antt =====
-- src/protocol/repository.ts and src/platform/files.ts: the texts that a manifest may name things
-- by. A regular expression without a flag that is anchored at both ends reads the whole text.
use cursor_setting_sync.Base.{
  ℕ, zero, suc, ◌+◌, ◌-◌, ◌/◌, ◌%◌, ◌≤◌, ◌<◌, ◌≡◌, ◌≢◌, refl, inl, inr, Bool, true, false, ◌&&◌,
  ◌||◌, not, Option, none, some, List, [], ◌∷◌, ◌++◌, leb, ltb, nat_beq, length, take, drop, every,
  map, if◌then◌else◌, ◌==◌, nat_eq, arith, if_keeps, In, every-In, take-length,
}
use cursor_setting_sync.Base.Texts.{Text, text_eq, units}
use cursor_setting_sync.Base.Sets.{has}
use cursor_setting_sync.Protocol.VersionId.{digits, decimal, version_id}

abbrev pub is_between : ℕ → ℕ → ℕ → Bool
is_between low high c = leb low c && leb c high

abbrev pub is_digit : ℕ → Bool
is_digit c = is_between b'0' b'9' c

abbrev pub is_lower : ℕ → Bool
is_lower c = is_between b'a' b'z' c

abbrev pub is_upper : ℕ → Bool
is_upper c = is_between b'A' b'Z' c

-- `[a-f0-9]`.
abbrev pub is_hex : ℕ → Bool
is_hex c = is_between b'a' b'f' c || is_digit c

-- `isSha256`.
unfoldable pub is_sha256 : Text → Bool
is_sha256 text = nat_beq (length text) 64 && every is_hex text

-- `\d+`.
abbrev pub is_digits : Text → Bool
is_digits [] = false
is_digits (c ∷ text) = every is_digit (c ∷ text)

-- `#\d+`.
abbrev pub is_index : Text → Bool
is_index [] = false
is_index (c ∷ text) = nat_beq c b'#' && is_digits text

-- `/^[a-f0-9]{64}#\d+$/`.
unfoldable pub is_version_id : Text → Bool
is_version_id text = is_sha256 (take 64 text) && is_index (drop 64 text)

-- `/^[a-z][a-z0-9]*(?:-[a-z0-9]+)*$/` behind its first unit; the flag says that a unit other than
-- `-` has to come next.
unfoldable pub is_kind_rest : Bool → Text → Bool
is_kind_rest starts [] = not starts
is_kind_rest starts (c ∷ text) =
    let word = is_kind_rest false text in
    let next = is_kind_rest true text in
    if is_lower c || is_digit c then word else if nat_beq c b'-' && not starts then next else false

unfoldable pub is_kind_text : Text → Bool
is_kind_text [] = false
is_kind_text (c ∷ text) = is_lower c && is_kind_rest false text

-- `[A-Za-z0-9]`.
abbrev pub is_word_unit : ℕ → Bool
is_word_unit c = is_upper c || is_lower c || is_digit c

-- `[A-Za-z0-9._-]`.
abbrev pub is_name_unit : ℕ → Bool
is_name_unit c = is_word_unit c || nat_beq c b'.' || nat_beq c b'_' || nat_beq c b'-'

abbrev pub is_name : Text → Bool
is_name [] = false
is_name (c ∷ text) = is_word_unit c && every is_name_unit text

unfoldable pub last_unit : Text → Option ℕ
last_unit [] = none
last_unit (c ∷ []) = some c
last_unit (c ∷ d ∷ text) = last_unit (d ∷ text)

abbrev pub ends_with : ℕ → Option ℕ → Bool
ends_with c none = false
ends_with c (some d) = nat_beq d c

-- `segment.split(".")[0]`.
unfoldable pub stem : Text → Text
stem [] = []
stem (c ∷ text) = let rest = stem text in if nat_beq c b'.' then [] else c ∷ rest

-- `toUpperCase`, of the ASCII texts that come here.
abbrev pub upper : ℕ → ℕ
upper c = if is_lower c then c - 32 else c

-- `/^COM[1-9]$/` and `/^LPT[1-9]$/`.
abbrev pub is_port : Text → Bool
is_port (a ∷ b ∷ c ∷ d ∷ []) =
    ((a ∷ b ∷ c ∷ []) == units "COM" || (a ∷ b ∷ c ∷ []) == units "LPT") && is_between b'1' b'9' d
is_port _ = false

abbrev pub reserved : List Text
reserved = units "CON" ∷ units "PRN" ∷ units "AUX" ∷ units "NUL" ∷ []

unfoldable pub is_safe_portable_path_segment : Text → Bool
is_safe_portable_path_segment segment =
    not (
      nat_beq (length segment) 0
      || segment == units "."
      || segment == units ".."
      || has 0 segment
      || has b':' segment
      || ends_with b'.' (last_unit segment)
      || ends_with b' ' (last_unit segment))
    && not (has (map upper (stem segment)) reserved || is_port (map upper (stem segment)))

-- `isSafeIdentifier`: `assertSafeIdentifier` does not throw.
unfoldable pub is_safe_identifier : Text → Bool
is_safe_identifier value =
    is_name value && leb (length value) 128 && is_safe_portable_path_segment value

-- What no unit of a name of a file may be.
abbrev pub IsPlain : ℕ → Type 0
IsPlain c = (c ≢ b'/') × (c ≢ 0x5c) × (c ≢ b':') × (c ≢ b' ') × (c ≢ 0)

name_unit-IsPlain : (c : ℕ) → is_name_unit c ≡ true → IsPlain c
name_unit-IsPlain c h =
    (λ e. ground arith, λ e. ground arith, λ e. ground arith, λ e. ground arith, λ e. ground arith)

name-units : (value : Text) (c : ℕ) → is_name value ≡ true → In c value → is_name_unit c ≡ true
name-units [] c h i = absurd i
name-units (x ∷ xs) c h (inl e) = rw e (ground arith)
name-units (x ∷ xs) c h (inr i) = every-In is_name_unit c xs (ground arith) i

-- An accepted identifier is one name of a file: it has at most 128 units, of which none is a
-- separator of paths, a colon, a space or the zero unit, and it does not end in a point.
pub is_safe_identifier-IsPlain :
    (value : Text)
    → is_safe_identifier value ≡ true
    → (length value ≤ 128) × ((c : ℕ) → In c value → IsPlain c) × (last_unit value ≢ some b'.')
unfolding is_safe_identifier is_safe_portable_path_segment
is_safe_identifier-IsPlain value h = (
  ground arith,
  λ c i. name_unit-IsPlain c (name-units value c (ground arith) i),
  λ e. ground arith,
)

digits-every :
    (f n : ℕ) (acc : Text) → every is_digit acc ≡ true → every is_digit (digits f n acc) ≡ true
unfolding digits every
digits-every zero n acc h = h
digits-every (suc f) n acc h =
    if_keeps (λ (t : Text). every is_digit t ≡ true) (ltb n 10) (λ t. ground arith)
      (λ _. digits-every f (n / 10) ((b'0' + n % 10) ∷ acc) (ground arith))

length-digits : (f n : ℕ) (acc : Text) → length acc ≤ length (digits f n acc)
unfolding digits
length-digits zero n acc = omega arith
length-digits (suc f) n acc =
    if_keeps (λ (t : Text). length acc ≤ length t) (ltb n 10) (λ _. omega arith)
      (λ _. omega (arith, length-digits f (n / 10) ((b'0' + n % 10) ∷ acc)))

nonempty-is_digits : (t : Text) → 0 < length t → every is_digit t ≡ true → is_digits t ≡ true
nonempty-is_digits [] h e = absurd (omega arith)
nonempty-is_digits (c ∷ t) h e = e

decimal-is_digits : (n : ℕ) → is_digits (decimal n) ≡ true
unfolding decimal digits every
decimal-is_digits n =
    nonempty-is_digits (decimal n)
      (if_keeps (λ (t : Text). 0 < length t) (ltb n 10) (λ _. omega arith)
        (λ _. omega (arith, length-digits n (n / 10) ((b'0' + n % 10) ∷ []))))
      (digits-every (suc n) n [] refl)

drop_front : (a b : Text) → drop (length a) (a ++ b) ≡ b
drop_front [] b = refl
drop_front (x ∷ a) b = drop_front a b

-- The identifier that the reconciler gives to a change of an event whose hash is a SHA-256 is one that
-- a manifest may name as a parent or as a folded version.
pub version_id-accepted :
    (hash : Text) (index : ℕ) → is_sha256 hash ≡ true → is_version_id (version_id hash index) ≡ true
unfolding is_version_id version_id is_sha256
version_id-accepted hash index h =
    let long : length hash ≡ 64 = ground arith in
    let front : take 64 (hash ++ (b'#' ∷ decimal index)) ≡ hash =
      rw (← long) (take-length hash (b'#' ∷ decimal index)) in
    let back : drop 64 (hash ++ (b'#' ∷ decimal index)) ≡ b'#' ∷ decimal index =
      rw (← long) (drop_front hash (b'#' ∷ decimal index)) in
    rw (front, back) (ground (arith, decimal-is_digits index))

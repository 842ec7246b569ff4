-- ===== src/Types/Json.antt =====
-- src/types.ts: what the code reads of a `JsonValue`.
use cursor_setting_sync.Base.{
  ℕ, ◌^◌, ◌-◌, Bool, true, false, Option, none, some, leb, nat_beq, if◌then◌else◌, ◌==◌,
}
use cursor_setting_sync.Base.Texts.{Text, text_eq}
use cursor_setting_sync.Types.{
  JsonValue, null, boolean, number, string, array, object, JsonNumber, whole, negative, fractional,
  JsonItems, JsonFields, end, field,
}

-- `object[key]`; `none` is undefined.
unfoldable pub field_at : JsonFields → Text → Option JsonValue
field_at end key = none
field_at (field name value rest) key =
    let later = field_at rest key in if name == key then some value else later

abbrev pub is_present : Option JsonValue → Bool
is_present none = false
is_present (some value) = true

-- `Object.hasOwn(metadata, key)`.
abbrev pub has_own : JsonFields → Text → Bool
has_own metadata key = is_present (field_at metadata key)

-- The value where `typeof value === "string"`.
abbrev pub as_text : Option JsonValue → Option Text
as_text none = none
as_text (some (string text)) = some text
as_text (some null) = none
as_text (some (boolean b)) = none
as_text (some (number n)) = none
as_text (some (array items)) = none
as_text (some (object fields)) = none

-- The value where it is an object, not an array and not null.
abbrev pub as_object : Option JsonValue → Option JsonFields
as_object none = none
as_object (some (object fields)) = some fields
as_object (some null) = none
as_object (some (boolean b)) = none
as_object (some (number n)) = none
as_object (some (array items)) = none
as_object (some (string text)) = none

-- `Number.isSafeInteger(n) && n >= 0`; -0 is such a number.
abbrev pub is_natural_number : JsonNumber → Bool
is_natural_number (whole n) = leb n (2 ^ 53 - 1)
is_natural_number (negative n) = nat_beq n 0
is_natural_number (fractional text) = false

abbrev pub is_number : ℕ → JsonNumber → Bool
is_number k (whole n) = nat_beq n k
is_number k (negative n) = false
is_number k (fractional text) = false

-- A test of a number, where `typeof value === "number"`.
abbrev pub number_passes : (JsonNumber → Bool) → Option JsonValue → Bool
number_passes p none = false
number_passes p (some (number n)) = p n
number_passes p (some null) = false
number_passes p (some (boolean b)) = false
number_passes p (some (string text)) = false
number_passes p (some (array items)) = false
number_passes p (some (object fields)) = false

-- The items where `Array.isArray(value)`.
abbrev pub as_items : JsonValue → Option JsonItems
as_items (array items) = some items
as_items null = none
as_items (boolean b) = none
as_items (number n) = none
as_items (string text) = none
as_items (object fields) = none

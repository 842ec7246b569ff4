-- ===== src/Resources/Notepads.antt =====
-- src/resources/notepadMerge.ts: the merge of two lists of notepads. `JSON.parse` has happened, and
-- of a merge the list is the result that `JSON.stringify` prints; an entry is its object, with its
-- `id` beside it.
pub mod Lookup
pub mod Resolution
pub mod Merged
pub mod Agreed
use cursor_setting_sync.Base.{
  ℕ, ◌+◌, nat_eq, Bool, true, false, ◌&&◌, ◌||◌, not, Option, none, some, List, [], ◌∷◌, ◌++◌, map,
  ltb, length, if◌then◌else◌, ◌==◌, ◌!=◌,
}
use cursor_setting_sync.Base.Texts.{Text, text_eq, units, includes}
use cursor_setting_sync.Base.Maps.{Map, get, set}
use cursor_setting_sync.Base.Sets.{has, add, distinct_from}
use cursor_setting_sync.Base.Sort.{sort}
use cursor_setting_sync.Protocol.Canonical.{compare_code_units}
use cursor_setting_sync.Types.{JsonValue, null, JsonItems, nil, cons, JsonFields, end, field}
use cursor_setting_sync.Types.Json.{field_at, as_text, as_object, as_items}
use cursor_setting_sync.Types.Printed.{prints_alike}

-- `MAX_ENTRIES`.
abbrev pub max_entries : ℕ
max_entries = 10000

pub record NotepadEntry : Type 0 where
  pub id : Text
  pub fields : JsonFields

-- `Object.keys(entry)`.
abbrev pub names : JsonFields → List Text
names end = []
names (field name value rest) = name ∷ names rest

-- The object that `stableJson` prints.
unfoldable pub stable_json : JsonFields → Map Text (Option JsonValue)
stable_json fields =
    map (λ name. (name, field_at fields name)) (sort compare_code_units (names fields))

abbrev pub same_value : Option JsonValue → Option JsonValue → Bool
same_value none none = true
same_value (some left) (some right) = prints_alike left right
same_value none (some right) = false
same_value (some left) none = false

unfoldable pub same_pairs : Map Text (Option JsonValue) → Map Text (Option JsonValue) → Bool
same_pairs [] [] = true
same_pairs ((name, value) ∷ rest) ((other, worth) ∷ more) =
    name == other && same_value value worth && same_pairs rest more
same_pairs [] (x ∷ more) = false
same_pairs (x ∷ rest) [] = false

unfoldable pub same_fields : JsonFields → JsonFields → Bool
same_fields left right = same_pairs (stable_json left) (stable_json right)

unfoldable pub same_entry : NotepadEntry → NotepadEntry → Bool
same_entry left right = same_fields left.fields right.fields

-- `{ ...fields, [key]: value }`.
unfoldable pub with_field : JsonFields → Text → JsonValue → JsonFields
with_field end key value = field key value end
with_field (field name old rest) key value =
    let later = with_field rest key value in
    if name == key then field name value rest else field name old later

abbrev pub text_of : NotepadEntry → Option Text
text_of entry = as_text (field_at entry.fields (units "text"))

-- `{ ...entry, text: null }`.
abbrev pub without_text : NotepadEntry → JsonFields
without_text entry = with_field entry.fields (units "text") null

-- `EntryResolution`.
pub data EntryResolution : Type 0 where
  entry : NotepadEntry → EntryResolution
  drop undecidable : EntryResolution

-- The longer text, where one holds the other.
abbrev pub elect_text : NotepadEntry → NotepadEntry → Option Text → Option Text → EntryResolution
elect_text preferred other (some text) (some worth) =
    if text != worth && same_fields (without_text preferred) (without_text other)
    then (if includes text worth
        then entry preferred
        else if includes worth text
        then entry other
        else undecidable)
    else undecidable
elect_text preferred other none worth = undecidable
elect_text preferred other (some text) none = undecidable

unfoldable pub elect_entry : NotepadEntry → NotepadEntry → EntryResolution
elect_entry preferred other =
    if same_entry preferred other
    then entry preferred
    else elect_text preferred other (text_of preferred) (text_of other)

-- `fromOther ?? DROP`.
abbrev pub or_drop : Option NotepadEntry → EntryResolution
or_drop none = drop
or_drop (some kept) = entry kept

-- `side === undefined || !sameEntry(fromBase, side)`.
abbrev pub is_changed : NotepadEntry → Option NotepadEntry → Bool
is_changed from_base none = true
is_changed from_base (some side) = not (same_entry from_base side)

abbrev pub resolve_added : Option NotepadEntry → Option NotepadEntry → EntryResolution
resolve_added none other = or_drop other
resolve_added (some preferred) none = entry preferred
resolve_added (some preferred) (some other) = elect_entry preferred other

unfoldable pub resolve_entry :
    Option NotepadEntry → Option NotepadEntry → Option NotepadEntry → EntryResolution
resolve_entry none preferred other = resolve_added preferred other
resolve_entry (some from_base) preferred other =
    if not (is_changed from_base preferred)
    then or_drop other
    else if not (is_changed from_base other)
    then or_drop preferred
    else resolve_added preferred other

abbrev pub ordered_ids : List NotepadEntry → List NotepadEntry → List Text
ordered_ids preferred other =
    distinct_from [] (map (λ (kept : NotepadEntry). kept.id) (preferred ++ other))

unfoldable pub by_id_from : Map Text NotepadEntry → List NotepadEntry → Map Text NotepadEntry
by_id_from result [] = result
by_id_from result (next ∷ entries) = by_id_from (set result next.id next) entries

abbrev pub by_id : List NotepadEntry → Map Text NotepadEntry
by_id entries = by_id_from [] entries

abbrev pub push : EntryResolution → Option (List NotepadEntry) → Option (List NotepadEntry)
push undecidable rest = none
push drop rest = rest
push (entry kept) none = none
push (entry kept) (some rest) = some (kept ∷ rest)

-- The loops of the merges; `none` is a conflict.
unfoldable pub merge_ids : (Text → EntryResolution) → List Text → Option (List NotepadEntry)
merge_ids resolve [] = some []
merge_ids resolve (id ∷ ids) = let rest = merge_ids resolve ids in push (resolve id) rest

unfoldable pub merge_notepads :
    List NotepadEntry → List NotepadEntry → List NotepadEntry → Option (List NotepadEntry)
merge_notepads base preferred other =
    merge_ids
      (λ id. resolve_entry (get (by_id base) id) (get (by_id preferred) id) (get (by_id other) id))
      (ordered_ids preferred other)

-- The body of the loop of the union.
abbrev pub unite : Option NotepadEntry → Option NotepadEntry → EntryResolution
unite none other = or_drop other
unite (some preferred) none = entry preferred
unite (some preferred) (some other) = elect_entry preferred other

unfoldable pub union_notepads : List NotepadEntry → List NotepadEntry → Option (List NotepadEntry)
union_notepads preferred other =
    merge_ids (λ id. unite (get (by_id preferred) id) (get (by_id other) id))
      (ordered_ids preferred other)

abbrev pub has_no_units : Text → Bool
has_no_units [] = true
has_no_units (c ∷ text) = false

abbrev pub usable_id : List Text → Option Text → Option Text
usable_id seen none = none
usable_id seen (some id) = if has_no_units id || has id seen then none else some id

abbrev pub cons_entry :
    Option JsonFields → Option Text → Option (List NotepadEntry) → Option (List NotepadEntry)
cons_entry (some fields) (some id) (some rest) = some (record { id = id; fields = fields } ∷ rest)
cons_entry none id rest = none
cons_entry (some fields) none rest = none
cons_entry (some fields) (some id) none = none

abbrev pub id_of : Option JsonFields → Option Text
id_of none = none
id_of (some fields) = as_text (field_at fields (units "id"))

abbrev pub saw : List Text → Option Text → List Text
saw seen none = seen
saw seen (some id) = add id seen

-- The loop over the candidates.
unfoldable pub parse_entries : List Text → JsonItems → Option (List NotepadEntry)
parse_entries seen nil = some []
parse_entries seen (cons candidate rest) =
    let later = parse_entries (saw seen (id_of (as_object (some candidate)))) rest in
    cons_entry (as_object (some candidate)) (usable_id seen (id_of (as_object (some candidate))))
      later

abbrev pub items_length : JsonItems → ℕ
items_length nil = 0
items_length (cons value rest) = 1 + items_length rest

abbrev pub parse_items : Option JsonItems → Option (List NotepadEntry)
parse_items none = none
parse_items (some items) =
    if ltb max_entries (items_length items) then none else parse_entries [] items

-- `parseNotepads`, of what `JSON.parse` returns; `none` is what it throws.
unfoldable pub parse_notepads : Option JsonValue → Option (List NotepadEntry)
parse_notepads none = none
parse_notepads (some parsed) = parse_items (as_items parsed)

abbrev pub merge_lists :
    Option (List NotepadEntry)
    → Option (List NotepadEntry)
    → Option (List NotepadEntry)
    → Option (List NotepadEntry)
merge_lists (some base) (some preferred) (some other) = merge_notepads base preferred other
merge_lists none preferred other = none
merge_lists (some base) none other = none
merge_lists (some base) (some preferred) none = none

unfoldable pub merge_notepad_buffers :
    Option JsonValue → Option JsonValue → Option JsonValue → Option (List NotepadEntry)
merge_notepad_buffers base preferred other =
    merge_lists (parse_notepads base) (parse_notepads preferred) (parse_notepads other)

abbrev pub unite_lists :
    Option (List NotepadEntry) → Option (List NotepadEntry) → Option (List NotepadEntry)
unite_lists (some preferred) (some other) = union_notepads preferred other
unite_lists none other = none
unite_lists (some preferred) none = none

unfoldable pub union_notepad_buffers :
    Option JsonValue → Option JsonValue → Option (List NotepadEntry)
union_notepad_buffers preferred other =
    unite_lists (parse_notepads preferred) (parse_notepads other)

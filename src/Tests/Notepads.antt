-- ===== src/Tests/Notepads.antt =====
-- src/resources/notepadMerge.ts: the theorems at the notepads of two computers.
use cursor_setting_sync.Base.{◌≡◌, refl, ◌↔◌, inl, inr, Option, none, some, List, [], ◌∷◌, list_beq}
use cursor_setting_sync.Base.Texts.{Text, units, text_eq, text_lt, starts_with, includes}
use cursor_setting_sync.Base.Maps.{get, set}
use cursor_setting_sync.Base.Sets.{has, add, distinct_from}
use cursor_setting_sync.Base.Sort.{sort, insert}
use cursor_setting_sync.Protocol.Canonical.{compare_code_units}
use cursor_setting_sync.Types.{JsonValue, string, array, object, nil, cons, end, field}
use cursor_setting_sync.Types.Json.{field_at}
use cursor_setting_sync.Types.Printed.{prints_alike}
use cursor_setting_sync.Resources.Notepads.{
  NotepadEntry, stable_json, same_pairs, same_fields, same_entry, with_field, elect_entry,
  resolve_entry, by_id_from, merge_ids, merge_notepads, union_notepads, parse_entries,
  parse_notepads,
}
use cursor_setting_sync.Resources.Notepads.Lookup.{first, HasIds}
use cursor_setting_sync.Resources.Notepads.Resolution.{Contested}
use cursor_setting_sync.Resources.Notepads.Merged.{
  Survives, merge_notepads-Survives, merge_notepads-Contested,
}
use cursor_setting_sync.Resources.Notepads.Agreed.{union_notepads-merge}

abbrev note : Text → Text → NotepadEntry
note id text = record {
  id = id;
  fields = field (units "id") (string id) (field (units "text") (string text) end);
}

-- The first computer went on with note 1 and the second has a new note.
abbrev base : List NotepadEntry
base = note (units "1") (units "a") ∷ []

abbrev preferred : List NotepadEntry
preferred = note (units "1") (units "ab") ∷ []

abbrev other : List NotepadEntry
other = note (units "2") (units "c") ∷ note (units "1") (units "a") ∷ []

abbrev merged : List NotepadEntry
merged = note (units "1") (units "ab") ∷ note (units "2") (units "c") ∷ []

base-HasIds : HasIds base
unfolding first
base-HasIds = (refl, tt)

preferred-HasIds : HasIds preferred
unfolding first
preferred-HasIds = (refl, tt)

other-HasIds : HasIds other
unfolding first list_beq
other-HasIds = (refl, (refl, tt))

merge-merged : merge_notepads base preferred other ≡ some merged
unfolding merge_notepads merge_ids resolve_entry elect_entry same_entry same_fields same_pairs
    stable_json by_id_from get set distinct_from add has sort insert compare_code_units text_lt
    field_at prints_alike list_beq
merge-merged = refl

merge_notepads-Survives_example : Survives base merged (note (units "1") (units "a"))
merge_notepads-Survives_example =
    merge_notepads-Survives base preferred other base-HasIds preferred-HasIds other-HasIds merged
      (note (units "1") (units "a")) merge-merged (inr (inr (inl refl)))

merge_notepads-Contested_example :
    (merge_notepads base preferred other ≡ none)
    ↔ ((id : Text) × Contested (first base id) (first preferred id) (first other id))
merge_notepads-Contested_example =
    merge_notepads-Contested base preferred other base-HasIds preferred-HasIds other-HasIds

union_notepads-merge_example : union_notepads preferred other ≡ merge_notepads [] preferred other
union_notepads-merge_example = union_notepads-merge preferred other

-- The union takes the longer text.
union-merged : union_notepads preferred other ≡ some merged
unfolding union_notepads merge_ids elect_entry same_entry same_fields same_pairs stable_json
    by_id_from get set distinct_from add has sort insert compare_code_units text_lt field_at
    prints_alike with_field includes starts_with list_beq
union-merged = refl

abbrev file : Option JsonValue
file = some (array (cons (object (note (units "1") (units "a")).fields) nil))

parsed_file : parse_notepads file ≡ some base
unfolding parse_notepads parse_entries field_at has list_beq
parsed_file = refl

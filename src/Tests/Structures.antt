-- ===== src/Tests/Structures.antt =====
-- src/protocol/jsonStructure.ts: the theorems at small texts.
use cursor_setting_sync.Base.{◌≡◌, ◌≤◌, List, refl, ◌↔◌, true, false, some, [], ◌∷◌}
use cursor_setting_sync.Base.Texts.{units}
use cursor_setting_sync.Protocol.JsonStructure.{
  Token, BudgetOptions, read, read_plain, read_string, scan, consume, consume_all,
  create_json_structure_budget, buffers_fit_json_structure_budget, or_default,
  json_structure_max_tokens,
}
use cursor_setting_sync.Protocol.JsonStructure.Fitting.{AreMade, price, buffers_fit_iff}

abbrev tight : BudgetOptions
tight = record { max_structural_tokens = some 6; max_nesting_depth = some 1; allow_comments = true }

-- The bracket in the comment and the one in the string do not count.
accepted : buffers_fit_json_structure_budget (units "[1,2]//{" ∷ units "\"[\"" ∷ []) tight ≡ true
unfolding buffers_fit_json_structure_budget create_json_structure_budget consume_all consume scan
    read read_plain read_string
accepted = refl

too_deep : buffers_fit_json_structure_budget (units "[[]]" ∷ []) tight ≡ false
unfolding buffers_fit_json_structure_budget create_json_structure_budget consume_all consume scan
    read read_plain read_string
too_deep = refl

-- The two texts would fit alone.
too_many : buffers_fit_json_structure_budget (units "[1,2]" ∷ units "[]" ∷ []) tight ≡ false
unfolding buffers_fit_json_structure_budget create_json_structure_budget consume_all consume scan
    read read_plain read_string
too_many = refl

-- The quote after the backslash does not end the string, so that the bracket stays in it.
escaped_quote : buffers_fit_json_structure_budget (units "\"\\\"[\"" ∷ []) tight ≡ true
unfolding buffers_fit_json_structure_budget create_json_structure_budget consume_all consume scan
    read read_plain read_string
escaped_quote = refl

buffers_fit_iff_example :
    (buffers_fit_json_structure_budget (units "[1,2]//{" ∷ units "\"[\"" ∷ []) tight ≡ true) ↔ (
      (tss : List (List Token)) × AreMade
        (create_json_structure_budget tight)
        (units "[1,2]//{" ∷ units "\"[\"" ∷ [])
        tss
      × (price tss ≤ or_default (some 6) json_structure_max_tokens))
buffers_fit_iff_example = buffers_fit_iff (units "[1,2]//{" ∷ units "\"[\"" ∷ []) tight

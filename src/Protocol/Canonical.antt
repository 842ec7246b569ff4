-- ===== src/Protocol/Canonical.antt =====
-- src/protocol/canonical.ts: the one string order of every replicated election. The base64 scan is in
-- Base64.
pub mod Base64
use cursor_setting_sync.Base.{Ordering, false, ◌≡◌, arith, if◌then◌else◌}
use cursor_setting_sync.Base.Texts.{
  Text, text_lt, text_lt_irrefl, text_lt_asymm, text_lt_trans, text_lt_total,
}
use cursor_setting_sync.Base.Sort.{IsComparator, flip, is_gt}

-- `compareCodeUnits`, by the sign of its number.
unfoldable pub compare_code_units : Text → Text → Ordering
compare_code_units left right =
    if text_lt left right
    then Ordering.lt
    else if text_lt right left
    then Ordering.gt
    else Ordering.eq

-- Equal in this order means equal unit by unit.
pub compare_code_units-eq : (a b : Text) → compare_code_units a b ≡ Ordering.eq → a ≡ b
unfolding compare_code_units
compare_code_units-eq a b h = ground (arith, text_lt_total a b)

pub compare_code_units_self : (a : Text) → compare_code_units a a ≡ Ordering.eq
unfolding compare_code_units
compare_code_units_self a = ground (arith, text_lt_irrefl a)

compare_code_units-flip : (a b : Text) → compare_code_units b a ≡ flip (compare_code_units a b)
unfolding compare_code_units
compare_code_units-flip a b = ground (arith, text_lt_asymm a b)

compare_code_units_trans :
    (a b c : Text)
    → is_gt (compare_code_units a b) ≡ false
    → is_gt (compare_code_units b c) ≡ false
    → is_gt (compare_code_units a c) ≡ false
unfolding compare_code_units
compare_code_units_trans a b c h k = ground (
  arith,
  text_lt_trans a b c,
  text_lt_total a b,
  text_lt_total b c,
  text_lt_trans c a b,
  text_lt_trans b c a,
  text_lt_asymm a b,
  text_lt_asymm b c,
  text_lt_asymm a c,
)

pub compare_code_units-IsComparator : IsComparator compare_code_units
compare_code_units-IsComparator = record {
  flips = compare_code_units-flip;
  trans = compare_code_units_trans;
}

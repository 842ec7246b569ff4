-- ===== src/Types/Printed.antt =====
-- src/types.ts: when `JSON.stringify` prints two values alike. The fields of an object stand in the
-- order in which they are enumerated, and -0 is printed as 0.
use cursor_setting_sync.Base.{
  ◌≡◌, refl, Bool, true, false, ◌&&◌, nat_beq, ◌==◌, arith, beq_refl, beq→eq, both_true, true_both,
}
use cursor_setting_sync.Base.Texts.{text_eq}
use cursor_setting_sync.Types.{
  JsonValue, null, boolean, number, string, array, object, JsonNumber, whole, negative, fractional,
  JsonItems, nil, cons, JsonFields, end, field,
}

abbrev pub prints_boolean_alike : Bool → Bool → Bool
prints_boolean_alike true b = b
prints_boolean_alike false true = false
prints_boolean_alike false false = true

abbrev pub prints_number_alike : JsonNumber → JsonNumber → Bool
prints_number_alike (whole a) (whole b) = nat_beq a b
prints_number_alike (negative a) (negative b) = nat_beq a b
prints_number_alike (whole a) (negative b) = nat_beq a 0 && nat_beq b 0
prints_number_alike (negative a) (whole b) = nat_beq a 0 && nat_beq b 0
prints_number_alike (fractional a) (fractional b) = a == b
prints_number_alike (fractional a) (whole b) = false
prints_number_alike (fractional a) (negative b) = false
prints_number_alike (whole a) (fractional b) = false
prints_number_alike (negative a) (fractional b) = false

unfoldable mutual
  pub prints_alike : JsonValue → JsonValue → Bool
  prints_alike null null = true
  prints_alike (boolean a) (boolean b) = prints_boolean_alike a b
  prints_alike (number a) (number b) = prints_number_alike a b
  prints_alike (string a) (string b) = a == b
  prints_alike (array a) (array b) = print_items_alike a b
  prints_alike (object a) (object b) = print_fields_alike a b
  prints_alike _ _ = false

  pub print_items_alike : JsonItems → JsonItems → Bool
  print_items_alike nil nil = true
  print_items_alike (cons a later) (cons b others) =
      prints_alike a b && print_items_alike later others
  print_items_alike _ _ = false

  pub print_fields_alike : JsonFields → JsonFields → Bool
  print_fields_alike end end = true
  print_fields_alike (field n a later) (field m b others) =
      n == m && prints_alike a b && print_fields_alike later others
  print_fields_alike _ _ = false

pub prints_number_alike-same : (a : JsonNumber) → prints_number_alike a a ≡ true
prints_number_alike-same (whole a) = ground arith
prints_number_alike-same (negative a) = ground arith
prints_number_alike-same (fractional a) = beq_refl a

mutual
  unfolding prints_alike

  pub prints_alike-same : (a : JsonValue) → prints_alike a a ≡ true
  prints_alike-same null = refl
  prints_alike-same (boolean b) = ground arith
  prints_alike-same (number n) = prints_number_alike-same n
  prints_alike-same (string t) = beq_refl t
  prints_alike-same (array a) = print_items_alike-same a
  prints_alike-same (object a) = print_fields_alike-same a

  pub print_items_alike-same : (a : JsonItems) → print_items_alike a a ≡ true
  print_items_alike-same nil = refl
  print_items_alike-same (cons a later) =
      ground (arith, prints_alike-same a, print_items_alike-same later)

  pub print_fields_alike-same : (a : JsonFields) → print_fields_alike a a ≡ true
  print_fields_alike-same end = refl
  print_fields_alike-same (field n a later) =
      ground (arith, beq_refl n, prints_alike-same a, print_fields_alike-same later)

pub prints_number_alike-sym :
    (a b : JsonNumber) → prints_number_alike a b ≡ true → prints_number_alike b a ≡ true
prints_number_alike-sym (whole a) b h = ground arith
prints_number_alike-sym (negative a) b h = ground arith
prints_number_alike-sym (fractional a) (fractional b) h =
    ground (arith, text_eq.equals_iff a b, text_eq.equals_iff b a)
prints_number_alike-sym (fractional a) b h = ground arith

-- Printing alike is symmetric.
mutual
  unfolding prints_alike

  pub prints_alike-sym : (a b : JsonValue) → prints_alike a b ≡ true → prints_alike b a ≡ true
  prints_alike-sym null b h = ground arith
  prints_alike-sym (boolean a) b h = ground arith
  prints_alike-sym (number m) (number n) h = prints_number_alike-sym m n h
  prints_alike-sym (number m) b h = ground arith
  prints_alike-sym (string s) (string t) h =
      ground (arith, text_eq.equals_iff s t, text_eq.equals_iff t s)
  prints_alike-sym (string s) b h = ground arith
  prints_alike-sym (array a) (array b) h = print_items_alike-sym a b h
  prints_alike-sym (array a) b h = ground arith
  prints_alike-sym (object a) (object b) h = print_fields_alike-sym a b h
  prints_alike-sym (object a) b h = ground arith

  pub print_items_alike-sym :
      (a b : JsonItems) → print_items_alike a b ≡ true → print_items_alike b a ≡ true
  print_items_alike-sym nil nil h = refl
  print_items_alike-sym nil (cons b others) h = absurd (cc)
  print_items_alike-sym (cons a later) (cons b others) h =
      let (p, q) = both_true (prints_alike a b) (print_items_alike later others) h in
      true_both (prints_alike b a) (print_items_alike others later) (prints_alike-sym a b p)
        (print_items_alike-sym later others q)
  print_items_alike-sym (cons a later) nil h = absurd (cc)

  pub print_fields_alike-sym :
      (a b : JsonFields) → print_fields_alike a b ≡ true → print_fields_alike b a ≡ true
  print_fields_alike-sym end end h = refl
  print_fields_alike-sym end (field m b others) h = absurd (cc)
  print_fields_alike-sym (field n a later) (field m b others) h =
      let (p, q) = both_true (n == m && prints_alike a b) (print_fields_alike later others) h in
      let (r, s) = both_true (n == m) (prints_alike a b) p in
      true_both (m == n && prints_alike b a) (print_fields_alike others later)
        (true_both (m == n) (prints_alike b a) (rw (beq→eq n m r) (beq_refl m))
          (prints_alike-sym a b s))
        (print_fields_alike-sym later others q)
  print_fields_alike-sym (field n a later) end h = absurd (cc)

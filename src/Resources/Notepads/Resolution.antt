-- ===== src/Resources/Notepads/Resolution.antt =====
-- src/resources/notepadMerge.ts: what becomes of one notepad.
use cursor_setting_sync.Base.{
  ◌≡◌, ◌≢◌, refl, ◌↔◌, ◌⊎◌, inl, true, false, Option, none, some, [], ◌∷◌, arith, beq_refl,
}
use cursor_setting_sync.Base.Texts.{Text, text_eq, includes}
use cursor_setting_sync.Base.Maps.{Map}
use cursor_setting_sync.Types.{JsonValue, JsonFields}
use cursor_setting_sync.Types.Printed.{prints_alike-same, prints_alike-sym}
use cursor_setting_sync.Resources.Notepads.{
  NotepadEntry, EntryResolution, entry, drop, undecidable, same_value, same_pairs, same_fields,
  same_entry, stable_json, without_text, text_of, includes, elect_text, elect_entry, resolve_entry,
}

abbrev pub TextIncludes : Option Text → Option Text → Type 0
TextIncludes (some text) (some part) =
    (includes text part ≡ true) × (text_eq.equals text part ≡ false)
TextIncludes none part = ⊥
TextIncludes (some text) none = ⊥

-- Two versions of which the first is the other with text added.
abbrev pub Extends : NotepadEntry → NotepadEntry → Type 0
Extends long short =
    (same_fields (without_text long) (without_text short) ≡ true)
    × TextIncludes (text_of long) (text_of short)

-- The kept version holds all that a side wrote: it has the same fields, or the same but with text
-- added.
abbrev pub Holds : NotepadEntry → NotepadEntry → Type 0
Holds kept e = (same_entry kept e ≡ true) ⊎ Extends kept e

same_pairs-same : (m : Map Text (Option JsonValue)) → same_pairs m m ≡ true
unfolding same_pairs
same_pairs-same [] = refl
same_pairs-same ((n, none) ∷ m) = ground (arith, beq_refl n, same_pairs-same m)
same_pairs-same ((n, some v) ∷ m) =
    ground (arith, beq_refl n, prints_alike-same v, same_pairs-same m)

pub same_entry-same : (e : NotepadEntry) → same_entry e e ≡ true
unfolding same_entry same_fields
same_entry-same e = same_pairs-same (stable_json e.fields)

same_value-sym : (a b : Option JsonValue) → same_value a b ≡ true → same_value b a ≡ true
same_value-sym none b h = ground arith
same_value-sym (some a) none h = ground arith
same_value-sym (some a) (some b) h = prints_alike-sym a b h

same_pairs-sym : (m n : Map Text (Option JsonValue)) → same_pairs m n ≡ true → same_pairs n m ≡ true
unfolding same_pairs
same_pairs-sym [] [] h = refl
same_pairs-sym [] (y ∷ n) h = absurd (cc)
same_pairs-sym (x ∷ m) [] h = absurd (cc)
same_pairs-sym ((a, v) ∷ m) ((b, w) ∷ n) h =
    ground (
      arith,
      text_eq.equals_iff a b,
      text_eq.equals_iff b a,
      same_value-sym v w,
      same_pairs-sym m n,
    )

pub same_fields-sym : (a b : JsonFields) → same_fields a b ≡ true → same_fields b a ≡ true
unfolding same_fields
same_fields-sym a b h = same_pairs-sym (stable_json a) (stable_json b) h

abbrev Differ : Option Text → Option Text → Type 0
Differ none t = Unit
Differ (some s) none = Unit
Differ (some s) (some t) = text_eq.equals s t ≡ false → text_eq.equals t s ≡ false

text_eq_sym : (s t : Option Text) → Differ s t
text_eq_sym none t = tt
text_eq_sym (some s) none = tt
text_eq_sym (some s) (some t) = λ h. ground (arith, text_eq.equals_iff s t, text_eq.equals_iff t s)

-- The elected version holds both.
elect_text-Holds :
    (p o k : NotepadEntry)
    → elect_text p o (text_of p) (text_of o) ≡ entry k
    → Holds k p × Holds k o
elect_text-Holds p o k h = ground (
  arith,
  same_entry-same p,
  same_entry-same o,
  same_fields-sym (without_text p) (without_text o),
  text_eq_sym (text_of p) (text_of o),
)

pub elect_entry-Holds : (p o k : NotepadEntry) → elect_entry p o ≡ entry k → Holds k p × Holds k o
unfolding elect_entry
elect_entry-Holds p o k h = ground (arith, elect_text-Holds p o k, same_entry-same p)

-- Two versions that differ, and of which neither is the other with text added.
abbrev pub Diverge : NotepadEntry → NotepadEntry → Type 0
Diverge p o = (same_entry p o ≡ false) × (¬ Extends p o) × (¬ Extends o p)

elect_entry-Diverge : (p o : NotepadEntry) → Diverge p o → elect_entry p o ≡ undecidable
unfolding elect_entry
elect_entry-Diverge p o d =
    ground (
      arith,
      same_fields-sym (without_text p) (without_text o),
      text_eq_sym (text_of p) (text_of o),
    )

pub elect_entry-one : (p o k : NotepadEntry) → elect_entry p o ≡ entry k → (k ≡ p) ⊎ (k ≡ o)
unfolding elect_entry
elect_entry-one p o k h = ground arith

elect_entry-kept : (p o : NotepadEntry) → elect_entry p o ≢ drop
unfolding elect_entry
elect_entry-kept p o h = ground arith

elect_entry-Diverge_inv : (p o : NotepadEntry) → elect_entry p o ≡ undecidable → Diverge p o
unfolding elect_entry
elect_entry-Diverge_inv p o h = ground (
  arith,
  same_entry-same p,
  same_fields-sym (without_text o) (without_text p),
  text_eq_sym (text_of p) (text_of o),
  text_eq_sym (text_of o) (text_of p),
)

abbrev pub IsUnchanged : Option NotepadEntry → NotepadEntry → Type 0
IsUnchanged none e = ⊥
IsUnchanged (some b) e = same_entry b e ≡ true

-- What a resolution means to one side's version: it is held, or that side had not changed it.
abbrev pub Accounts : EntryResolution → Option NotepadEntry → NotepadEntry → Type 0
Accounts (entry k) b e = Holds k e ⊎ IsUnchanged b e
Accounts drop b e = IsUnchanged b e
Accounts undecidable b e = Unit

elected :
    (p o : NotepadEntry) (b : Option NotepadEntry)
    → Accounts (elect_entry p o) b p × Accounts (elect_entry p o) b o
elected p o b = by_resolution (elect_entry p o) refl
  where
    by_resolution : (r : EntryResolution) → elect_entry p o ≡ r → Accounts r b p × Accounts r b o
    by_resolution (entry k) h = let (x, y) = elect_entry-Holds p o k h in (inl x, inl y)
    by_resolution drop h = absurd (elect_entry-kept p o h)
    by_resolution undecidable h = (tt, tt)

pub resolve_entry-preferred :
    (b : Option NotepadEntry) (e : NotepadEntry) (o : Option NotepadEntry)
    → Accounts (resolve_entry b (some e) o) b e
unfolding resolve_entry
resolve_entry-preferred none e none = inl (inl (same_entry-same e))
resolve_entry-preferred none e (some o) = (elected e o none).0
resolve_entry-preferred (some b) e none = ground (arith, same_entry-same e)
resolve_entry-preferred (some b) e (some o) =
    ground (arith, same_entry-same e, elected e o (some b))

pub resolve_entry-other :
    (b : Option NotepadEntry) (p : Option NotepadEntry) (e : NotepadEntry)
    → Accounts (resolve_entry b p (some e)) b e
unfolding resolve_entry
resolve_entry-other none none e = inl (inl (same_entry-same e))
resolve_entry-other none (some p) e = (elected p e none).1
resolve_entry-other (some b) none e = ground (arith, same_entry-same e)
resolve_entry-other (some b) (some p) e = ground (arith, same_entry-same e, elected p e (some b))

abbrev pub IsEdited : Option NotepadEntry → NotepadEntry → Type 0
IsEdited none e = Unit
IsEdited (some b) e = same_entry b e ≡ false

-- Both sides wrote something else: neither version is that of the base, and the two diverge.
abbrev pub Contested : Option NotepadEntry → Option NotepadEntry → Option NotepadEntry → Type 0
Contested b (some p) (some o) = Diverge p o × IsEdited b p × IsEdited b o
Contested b none o = ⊥
Contested b (some p) none = ⊥

pub resolve_entry-Contested :
    (b p o : Option NotepadEntry) → (resolve_entry b p o ≡ undecidable) ↔ Contested b p o
unfolding resolve_entry
resolve_entry-Contested b none o = (λ h. ground arith, λ h. absurd h)
resolve_entry-Contested b (some p) none = (λ h. ground arith, λ h. absurd h)
resolve_entry-Contested none (some p) (some o) =
    (λ h. (elect_entry-Diverge_inv p o h, tt, tt), λ h. elect_entry-Diverge p o h.0)
resolve_entry-Contested (some b) (some p) (some o) = (
  λ h. ground (arith, elect_entry-Diverge_inv p o),
  λ h. ground (arith, elect_entry-Diverge p o h.0),
)

pub resolve_entry-one :
    (b p o : Option NotepadEntry) (k : NotepadEntry)
    → resolve_entry b p o ≡ entry k
    → (p ≡ some k) ⊎ (o ≡ some k)
unfolding resolve_entry
resolve_entry-one b p o k h = by_versions b p o h
  where
    by_versions :
        (b p o : Option NotepadEntry) → resolve_entry b p o ≡ entry k → (p ≡ some k) ⊎ (o ≡ some k)
    by_versions b none o h = ground arith
    by_versions b (some p) none h = ground arith
    by_versions b (some p) (some o) h = ground (arith, elect_entry-one p o k)

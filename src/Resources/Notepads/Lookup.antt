-- ===== src/Resources/Notepads/Lookup.antt =====
-- src/resources/notepadMerge.ts: entries looked up by their `id`, and the loop of the merges.
use cursor_setting_sync.Base.{
  ◌≡◌, refl, ◌↔◌, ◌⊎◌, inl, inr, Option, none, some, List, [], ◌∷◌, if◌then◌else◌, arith, In,
}
use cursor_setting_sync.Base.Texts.{Text, text_eq}
use cursor_setting_sync.Base.Maps.{Map, get, set, get-set}
use cursor_setting_sync.Base.Sets.{has, has-In, Distinct}
use cursor_setting_sync.Resources.Notepads.{
  NotepadEntry, EntryResolution, entry, drop, undecidable, by_id_from, by_id, push, merge_ids,
}

-- The entry with an `id`, as the first of the list that has it.
unfoldable pub first : List NotepadEntry → Text → Option NotepadEntry
first [] id = none
first (e ∷ es) id = if text_eq.equals e.id id then some e else first es id

-- No `id` is there twice.
abbrev pub HasIds : List NotepadEntry → Type 0
HasIds [] = Unit
HasIds (e ∷ es) = (first es e.id ≡ none) × HasIds es

abbrev pub or_else : Option NotepadEntry → Option NotepadEntry → Option NotepadEntry
or_else none other = other
or_else (some e) other = some e

get-by_id_from :
    (m : Map Text NotepadEntry) (es : List NotepadEntry) (id : Text)
    → HasIds es
    → get (by_id_from m es) id ≡ or_else (first es id) (get m id)
unfolding by_id_from first
get-by_id_from m [] id h = refl
get-by_id_from m (e ∷ es) id h = ground (
  arith,
  get-by_id_from (set m e.id e) es id h.1,
  get-set m e.id id e,
  text_eq.equals_iff e.id id,
)

pub get-by_id : (es : List NotepadEntry) (id : Text) → HasIds es → get (by_id es) id ≡ first es id
unfolding get
get-by_id es id h = ground (arith, get-by_id_from [] es id h)

pub first-In :
    (es : List NotepadEntry) (id : Text) (e : NotepadEntry)
    → first es id ≡ some e
    → In e es × (e.id ≡ id)
unfolding first
first-In [] id e h = cc
first-In (x ∷ xs) id e h = ground (arith, first-In xs id e, text_eq.equals_iff x.id id)

pub In-first :
    (es : List NotepadEntry) (e : NotepadEntry) → HasIds es → In e es → first es e.id ≡ some e
unfolding first
In-first [] e h i = absurd i
In-first (x ∷ xs) e h i = ground (arith, In-first xs e h.1, text_eq.equals_iff x.id e.id)

push-some :
    (r : EntryResolution) (rest : Option (List NotepadEntry)) (m : List NotepadEntry)
    → push r rest ≡ some m
    → ((r ≡ drop) × (rest ≡ some m))
      ⊎ ((e : NotepadEntry) × (l : List NotepadEntry) × (r ≡ entry e)
          × (rest ≡ some l)
          × (m ≡ e ∷ l))
push-some undecidable rest m h = absurd (cc)
push-some drop rest m h = inl (refl, h)
push-some (entry e) none m h = absurd (cc)
push-some (entry e) (some l) m h = inr (e, l, refl, refl, ground arith)

pub push-none :
    (r : EntryResolution) (rest : Option (List NotepadEntry))
    → push r rest ≡ none
    → (r ≡ undecidable) ⊎ (rest ≡ none)
push-none undecidable rest h = inl refl
push-none drop rest h = inr h
push-none (entry e) none h = inr refl
push-none (entry e) (some l) h = absurd (cc)

module _ (resolve : Text → EntryResolution) where
  pub merge_ids-In :
      (ids : List Text) (m : List NotepadEntry) (e : NotepadEntry)
      → merge_ids resolve ids ≡ some m
      → In e m
      → (id : Text) × In id ids × (resolve id ≡ entry e)
  unfolding merge_ids
  merge_ids-In [] m e h i = absurd (ground arith)
  merge_ids-In (x ∷ ids) m e h i = elim (push-some (resolve x) (merge_ids resolve ids) m h) [
    | inl (p, q) ↦ let (id, j, k) = merge_ids-In ids m e q i in (id, inr j, k)
    | inr (f, l, p, q, r) ↦ elim (rw r at i) [
      | inl t ↦ (x, inl refl, ground arith)
      | inr j ↦ let (id, a, b) = merge_ids-In ids l e q j in (id, inr a, b)
    ]
  ]

  pub merge_ids-each :
      (ids : List Text) (m : List NotepadEntry) (id : Text)
      → merge_ids resolve ids ≡ some m
      → In id ids
      → (resolve id ≡ drop) ⊎ ((e : NotepadEntry) × (resolve id ≡ entry e) × In e m)
  unfolding merge_ids
  merge_ids-each [] m id h i = absurd i
  merge_ids-each (x ∷ ids) m id h (inl t) =
      elim (push-some (resolve x) (merge_ids resolve ids) m h) [
        | inl (p, q) ↦ inl (rw t p)
        | inr (f, l, p, q, r) ↦ inr (f, rw t p, rw r (inl refl))
      ]
  merge_ids-each (x ∷ ids) m id h (inr i) =
      elim (push-some (resolve x) (merge_ids resolve ids) m h) [
        | inl (p, q) ↦ merge_ids-each ids m id q i
        | inr (f, l, p, q, r) ↦ elim (merge_ids-each ids l id q i) [
          | inl d ↦ inl d
          | inr (e, a, b) ↦ inr (e, a, rw r (inr b))
        ]
      ]

  -- There is no merge exactly if one of the notepads cannot be decided.
  pub merge_ids-none :
      (ids : List Text)
      → (merge_ids resolve ids ≡ none) ↔ ((id : Text) × In id ids × (resolve id ≡ undecidable))
  unfolding merge_ids
  merge_ids-none [] = (λ h. absurd (cc), λ h. absurd h.1)
  merge_ids-none (x ∷ ids) = (
    λ h. elim (push-none (resolve x) (merge_ids resolve ids) h) [
      | inl u ↦ (x, inl refl, u)
      | inr n ↦ let (id, i, u) = (merge_ids-none ids).0 n in (id, inr i, u)
    ],
    λ (id, i, u). elim i [
      | inl t ↦ rw (← t, u) refl
      | inr j ↦ rw ((merge_ids-none ids).1 (id, j, u)) (ground arith)
    ],
  )

  -- Where each resolution keeps the `id` that it is asked for, the merge has no `id` twice.
  pub merge_ids-HasIds :
      (own : (id : Text) (e : NotepadEntry) → resolve id ≡ entry e → e.id ≡ id) (ids : List Text)
      (m : List NotepadEntry)
      → Distinct ids
      → merge_ids resolve ids ≡ some m
      → HasIds m
  unfolding merge_ids has
  merge_ids-HasIds own [] m d h = ground arith
  merge_ids-HasIds own (x ∷ ids) m d h = elim (push-some (resolve x) (merge_ids resolve ids) m h) [
    | inl (p, q) ↦ merge_ids-HasIds own ids m d.1 q
    | inr (f, l, p, q, r) ↦
        rw r (absent f l p q (first l f.id) refl, merge_ids-HasIds own ids l d.1 q)
  ]
    where
      absent :
          (f : NotepadEntry) (l : List NotepadEntry)
          → resolve x ≡ entry f
          → merge_ids resolve ids ≡ some l
          → (r : Option NotepadEntry) → first l f.id ≡ r
          → first l f.id ≡ none
      absent f l p q none t = t
      absent f l p q (some g) t =
          let (i, a) = first-In l f.id g t in
          let (id, j, b) = merge_ids-In ids l g q i in
          absurd (ground (arith, own x f p, own id g b, has-In id ids))

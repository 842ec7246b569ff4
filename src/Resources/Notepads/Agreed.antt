-- ===== src/Resources/Notepads/Agreed.antt =====
-- src/resources/notepadMerge.ts: the union as a merge, what is read, and sides that agree.
use cursor_setting_sync.Base.{
  ◌≤◌, ◌≡◌, ◌≢◌, refl, ap, ◌⊎◌, inl, inr, false, Option, none, some, List, [], ◌∷◌, ◌++◌, map,
  arith, In, length, ltb, Bool-cases, In-append,
}
use cursor_setting_sync.Base.Texts.{Text, text_eq}
use cursor_setting_sync.Base.Maps.{get}
use cursor_setting_sync.Base.Sets.{has, add, has-In, In-add, IsNew, distinct_from-twice}
use cursor_setting_sync.Types.{JsonValue, JsonItems, nil, cons, JsonFields}
use cursor_setting_sync.Types.Json.{as_items, as_object}
use cursor_setting_sync.Resources.Notepads.{
  NotepadEntry, EntryResolution, entry, elect_entry, resolve_entry, by_id, by_id_from, ordered_ids,
  merge_ids, merge_notepads, union_notepads, unite, usable_id, cons_entry, id_of, saw,
  parse_entries, items_length, parse_items, parse_notepads, max_entries,
}
use cursor_setting_sync.Resources.Notepads.Lookup.{first, HasIds, get-by_id, first-In, In-first}
use cursor_setting_sync.Resources.Notepads.Resolution.{Holds, same_entry-same}
use cursor_setting_sync.Resources.Notepads.Merged.{merge_notepads-Survives}

merge_ids-same :
    (f g : Text → EntryResolution)
    → ((id : Text) → f id ≡ g id)
    → (ids : List Text) → merge_ids f ids ≡ merge_ids g ids
unfolding merge_ids
merge_ids-same f g h [] = refl
merge_ids-same f g h (x ∷ ids) = rw (h x, merge_ids-same f g h ids) refl

-- The union of two lists is their merge over an empty base, whatever the lists are.
pub union_notepads-merge : (p o : List NotepadEntry) → union_notepads p o ≡ merge_notepads [] p o
unfolding union_notepads merge_notepads get by_id_from
union_notepads-merge p o =
    merge_ids-same (λ id. unite (get (by_id p) id) (get (by_id o) id))
      (λ id. resolve_entry (get (by_id []) id) (get (by_id p) id) (get (by_id o) id))
      (λ id. added (get (by_id p) id) (get (by_id o) id)) (ordered_ids p o)
  where
    added : (a b : Option NotepadEntry) → unite a b ≡ resolve_entry none a b
    added a b = unfold resolve_entry in ground arith

-- If each side has no `id` twice and the union is no conflict, then for every notepad of either side
-- the union has one of its `id` with the same fields, or the same but for a text that holds its text.
pub union_notepads-Holds :
    (p o m : List NotepadEntry) (e : NotepadEntry)
    → HasIds p
    → HasIds o
    → union_notepads p o ≡ some m
    → In e p ⊎ In e o
    → (k : NotepadEntry) × In k m × (k.id ≡ e.id) × Holds k e
unfolding first
union_notepads-Holds p o m e hp ho h i =
    elim (merge_notepads-Survives [] p o tt hp ho m e (rw (union_notepads-merge p o) at h) i) [
      | inl kept ↦ kept
      | inr same ↦ absurd same
    ]

elect_entry-same : (e : NotepadEntry) → elect_entry e e ≡ entry e
unfolding elect_entry
elect_entry-same e = ground (arith, same_entry-same e)

resolve_entry-agreed :
    (b : Option NotepadEntry) (e : NotepadEntry) → resolve_entry b (some e) (some e) ≡ entry e
unfolding resolve_entry
resolve_entry-agreed none e = elect_entry-same e
resolve_entry-agreed (some b) e = ground (arith, elect_entry-same e)

merge_ids-map :
    (resolve : Text → EntryResolution) (es : List NotepadEntry)
    → ((e : NotepadEntry) → In e es → resolve e.id ≡ entry e)
    → merge_ids resolve (map (λ (k : NotepadEntry). k.id) es) ≡ some es
unfolding merge_ids
merge_ids-map resolve [] h = refl
merge_ids-map resolve (e ∷ es) h =
    rw (h e (inl refl), merge_ids-map resolve es (λ k i. h k (inr i))) refl

cons_entry-some :
    (fields : Option JsonFields) (id : Option Text) (rest : Option (List NotepadEntry))
    (es : List NotepadEntry)
    → cons_entry fields id rest ≡ some es
    → (f : JsonFields) × (i : Text) × (l : List NotepadEntry) × (fields ≡ some f)
      × (id ≡ some i)
      × (rest ≡ some l)
      × (es ≡ record { id = i; fields = f } ∷ l)
cons_entry-some none id rest es h = absurd (cc)
cons_entry-some (some f) none rest es h = absurd (cc)
cons_entry-some (some f) (some i) none es h = absurd (cc)
cons_entry-some (some f) (some i) (some l) es h = (f, i, l, refl, refl, refl, ground arith)

usable_id-some :
    (seen : List Text) (t : Option Text) (id : Text)
    → usable_id seen t ≡ some id
    → (t ≡ some id) × (has id seen ≡ false) × (id ≢ [])
usable_id-some seen none id h = absurd (cc)
usable_id-some seen (some u) id h = (ground arith, ground arith, λ e. ground arith)

-- The entry can be keyed by its `id`, which was not seen before.
abbrev IsFresh : List Text → NotepadEntry → Type 0
IsFresh seen k = (has k.id seen ≡ false) × (k.id ≢ [])

IsFresh-add :
    (seen : List Text) (id : Text) (k : NotepadEntry)
    → IsFresh (add id seen) k
    → IsFresh seen k × (k.id ≢ id)
IsFresh-add seen id k (h, n) = (
  (ground (arith, has-In k.id seen, has-In k.id (add id seen), In-add k.id id seen), n),
  λ e. ground (arith, has-In k.id (add id seen), In-add k.id id seen),
)

parse_entries-HasIds :
    (seen : List Text) (items : JsonItems) (es : List NotepadEntry)
    → parse_entries seen items ≡ some es
    → HasIds es × ((k : NotepadEntry) → In k es → IsFresh seen k) × (length es ≡ items_length items)
unfolding parse_entries
parse_entries-HasIds seen nil es h = (ground arith, λ k i. absurd (ground arith), ground arith)
parse_entries-HasIds seen (cons v rest) es h =
    let object : Option JsonFields = as_object (some v) in
    let (f, id, l, p, q, r, t) =
      cons_entry-some object (usable_id seen (id_of object))
        (parse_entries (saw seen (id_of object)) rest) es h in
    let (found, unseen, filled) = usable_id-some seen (id_of object) id q in
    let (ids, fresh, long) = parse_entries-HasIds (saw seen (id_of object)) rest l r in
    rw t (
      (absent f id l seen found fresh (first l id) refl, ids),
      λ k i. elim i [
        | inl e ↦ rw e (unseen, filled)
        | inr j ↦ (IsFresh-add seen id k (rw found at fresh k j)).0
      ],
      omega (arith, long),
    )
  where
    absent :
        (f : JsonFields) (id : Text) (l : List NotepadEntry) (seen : List Text)
        → id_of (as_object (some v)) ≡ some id
        → ((k : NotepadEntry) → In k l → IsFresh (saw seen (id_of (as_object (some v)))) k)
        → (r : Option NotepadEntry) → first l id ≡ r
        → first l id ≡ none
    absent f id l seen found fresh none t = t
    absent f id l seen found fresh (some g) t =
        let (i, e) = first-In l id g t in
        absurd ((IsFresh-add seen id g (rw found at fresh g i)).1 e)

-- A list that is read has no `id` twice and none that is empty, and at most MAX_ENTRIES entries.
pub parse_notepads-HasIds :
    (v : Option JsonValue) (es : List NotepadEntry)
    → parse_notepads v ≡ some es
    → HasIds es × ((k : NotepadEntry) → In k es → k.id ≢ []) × (length es ≤ max_entries)
unfolding parse_notepads
parse_notepads-HasIds none es h = absurd (cc)
parse_notepads-HasIds (some v) es h = by_items (as_items v) h
  where
    by_items :
        (items : Option JsonItems)
        → parse_items items ≡ some es
        → HasIds es × ((k : NotepadEntry) → In k es → k.id ≢ []) × (length es ≤ max_entries)
    by_items none h = absurd (cc)
    by_items (some items) h = elim (Bool-cases (ltb max_entries (items_length items))) [
      | inl t ↦ absurd (ground arith)
      | inr f ↦
          let (ids, fresh, long) = parse_entries-HasIds [] items es (ground arith) in
          (ids, λ k i. (fresh k i).1, ground arith)
    ]

map-append : {A B : Type 0} (f : A → B) (xs ys : List A) → map f (xs ++ ys) ≡ map f xs ++ map f ys
map-append f [] ys = refl
map-append f (x ∷ xs) ys = ap (◌∷◌ (f x)) (map-append f xs ys)

HasIds-IsNew :
    (seen : List Text) (es : List NotepadEntry)
    → HasIds es
    → ((k : NotepadEntry) → In k es → has k.id seen ≡ false)
    → IsNew seen (map (λ (k : NotepadEntry). k.id) es)
HasIds-IsNew seen [] h fresh = tt
HasIds-IsNew seen (e ∷ es) h fresh = (
  fresh e (inl refl),
  HasIds-IsNew (seen ++ e.id ∷ []) es h.1 (λ k i. ground (
    arith,
    fresh k (inr i),
    has-In k.id seen,
    has-In k.id (seen ++ e.id ∷ []),
    In-append k.id seen (e.id ∷ []),
    In-first es k h.1 i,
  )),
)

-- If no `id` is there twice, the merge of two sides that hold the same list is that list, whatever
-- the base.
pub merge_notepads-agreed :
    (base es : List NotepadEntry) → HasIds es → merge_notepads base es es ≡ some es
unfolding merge_notepads has
merge_notepads-agreed base es h =
    rw
      (
        map-append (λ (k : NotepadEntry). k.id) es es,
        distinct_from-twice (map (λ (k : NotepadEntry). k.id) es)
            (HasIds-IsNew [] es h (λ k i. refl)),
      )
      (merge_ids-map
        (λ id. resolve_entry (get (by_id base) id) (get (by_id es) id) (get (by_id es) id)) es
        (λ e i.
          rw (get-by_id es e.id h, In-first es e h i)
            (resolve_entry-agreed (get (by_id base) e.id) e)))

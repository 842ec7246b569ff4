-- ===== src/Resources/Notepads/Merged.antt =====
-- src/resources/notepadMerge.ts: what the merges keep.
use cursor_setting_sync.Base.{
  ◌≡◌, refl, ◌↔◌, ◌⊎◌, inl, inr, Option, none, some, List, [], ◌++◌, map, arith, In, In-map,
  In-map_inv, In-append, In-append_left, In-append_right,
}
use cursor_setting_sync.Base.Texts.{Text, text_eq}
use cursor_setting_sync.Base.Maps.{get}
use cursor_setting_sync.Base.Sets.{In-distinct_from, distinct_from-Distinct}
use cursor_setting_sync.Resources.Notepads.{
  NotepadEntry, EntryResolution, entry, resolve_entry, by_id, ordered_ids, merge_notepads,
}
use cursor_setting_sync.Resources.Notepads.Lookup.{
  first, HasIds, get-by_id, first-In, In-first, merge_ids-In, merge_ids-each, merge_ids-none,
  merge_ids-HasIds,
}
use cursor_setting_sync.Resources.Notepads.Resolution.{
  Holds, IsUnchanged, Accounts, Contested, resolve_entry-preferred, resolve_entry-other,
  resolve_entry-Contested, resolve_entry-one,
}

In-ordered_ids :
    (p o : List NotepadEntry) (id : Text)
    → In id (ordered_ids p o) ↔ ((e : NotepadEntry) × (In e p ⊎ In e o) × (e.id ≡ id))
In-ordered_ids p o id = (
  λ h. elim ((In-distinct_from id [] (map id_in (p ++ o))).0 h) [
    | inl i ↦ absurd i
    | inr i ↦ let (e, j, q) = In-map_inv id_in id (p ++ o) i in (e, In-append e p o j, q)
  ],
  λ (e, i, q).
      (In-distinct_from id [] (map id_in (p ++ o))).1
        (inr (rw⁻¹ q (In-map id_in e (p ++ o) (both e i)))),
)
  where
    id_in : NotepadEntry → Text
    id_in e = e.id

    both : (e : NotepadEntry) → In e p ⊎ In e o → In e (p ++ o)
    both e (inl i) = In-append_left e p o i
    both e (inr i) = In-append_right e p o i

-- A side's version is not lost: what is kept under its id holds it, or the side had not changed it
-- since the base.
abbrev pub Survives : List NotepadEntry → List NotepadEntry → NotepadEntry → Type 0
Survives base m e =
    ((k : NotepadEntry) × In k m × (k.id ≡ e.id) × Holds k e) ⊎ IsUnchanged (first base e.id) e

module _ (base p o : List NotepadEntry) (hb : HasIds base) (hp : HasIds p) (ho : HasIds o) where
  resolved : Text → EntryResolution
  resolved id = resolve_entry (get (by_id base) id) (get (by_id p) id) (get (by_id o) id)

  resolved-first :
      (id : Text) → resolved id ≡ resolve_entry (first base id) (first p id) (first o id)
  unfolding resolved
  resolved-first id = rw (get-by_id base id hb, get-by_id p id hp, get-by_id o id ho) refl

  own_id : (id : Text) (k : NotepadEntry) → resolved id ≡ entry k → k.id ≡ id
  own_id id k h =
      elim (resolve_entry-one (first base id) (first p id) (first o id) k
        (rw (resolved-first id) at h)) [
          | inl q ↦ (first-In p id k q).1
          | inr q ↦ (first-In o id k q).1
        ]

  accounts : (e : NotepadEntry) → In e p ⊎ In e o → Accounts (resolved e.id) (first base e.id) e
  accounts e (inl i) =
      rw (resolved-first e.id, In-first p e hp i)
        (resolve_entry-preferred (first base e.id) e (first o e.id))
  accounts e (inr i) =
      rw (resolved-first e.id, In-first o e ho i)
        (resolve_entry-other (first base e.id) (first p e.id) e)

  -- If no list has an `id` twice and the merge is no conflict, then for each notepad of either side the
  -- merge has one of its `id` with the same fields, or the same but for a longer text that holds its
  -- text; unless that side still had the fields of the base.
  pub merge_notepads-Survives :
      (m : List NotepadEntry) (e : NotepadEntry)
      → merge_notepads base p o ≡ some m
      → In e p ⊎ In e o
      → Survives base m e
  unfolding merge_notepads
  merge_notepads-Survives m e h i =
      let account = accounts e i in
      elim (merge_ids-each resolved (ordered_ids p o) m e.id (unfold resolved in h)
        ((In-ordered_ids p o e.id).1 (e, i, refl))) [
          | inl d ↦ inr (ground arith)
          | inr (k, q, j) ↦ elim (rw q at account) [
            | inl held ↦ inl (k, j, own_id e.id k q, held)
            | inr same ↦ inr same
          ]
        ]

  from : (id : Text) (k : NotepadEntry) → resolved id ≡ entry k → In k p ⊎ In k o
  from id k h =
      elim (resolve_entry-one (first base id) (first p id) (first o id) k
        (rw (resolved-first id) at h)) [
          | inl q ↦ inl (first-In p id k q).0
          | inr q ↦ inr (first-In o id k q).0
        ]

  contested :
      (id : Text) → Contested (first base id) (first p id) (first o id) → In id (ordered_ids p o)
  contested id c = by_versions (first p id) refl (first o id) refl
    where
      by_versions :
          (a : Option NotepadEntry)
          → first p id ≡ a
          → (b : Option NotepadEntry) → first o id ≡ b
          → In id (ordered_ids p o)
      by_versions (some k) t b u =
          let (i, q) = first-In p id k t in (In-ordered_ids p o id).1 (k, inl i, q)
      by_versions none t b u = absurd (ground arith)

  -- If no list has an `id` twice, the merge is a conflict exactly if both sides hold a notepad of one
  -- `id`, each with other fields than the base or not in the base, the two with different fields and
  -- neither the other with text added.
  pub merge_notepads-Contested :
      (merge_notepads base p o ≡ none)
      ↔ ((id : Text) × Contested (first base id) (first p id) (first o id))
  unfolding merge_notepads
  merge_notepads-Contested = (
    λ h.
        let (id, i, u) = (merge_ids-none resolved (ordered_ids p o)).0 (unfold resolved in h) in
        (
          id,
          (resolve_entry-Contested (first base id) (first p id) (first o id)).0
              (rw (resolved-first id) at u),
        ),
    λ (id, c).
        unfold resolved in
        (merge_ids-none resolved (ordered_ids p o)).1 (
          id,
          contested id c,
          rw (resolved-first id)
              ((resolve_entry-Contested (first base id) (first p id) (first o id)).1 c),
        ),
  )

  -- If no list has an `id` twice and the merge is no conflict, the merge has no `id` twice either, and
  -- each of its notepads is one of a side.
  pub merge_notepads-HasIds :
      (m : List NotepadEntry)
      → merge_notepads base p o ≡ some m
      → HasIds m × ((k : NotepadEntry) → In k m → In k p ⊎ In k o)
  unfolding merge_notepads
  merge_notepads-HasIds m h = (
    merge_ids-HasIds resolved own_id (ordered_ids p o) m
        (distinct_from-Distinct [] (map (λ (k : NotepadEntry). k.id) (p ++ o)) tt)
        (unfold resolved in h),
    λ k i.
        let (id, j, q) = merge_ids-In resolved (ordered_ids p o) m k (unfold resolved in h) i in
        from id k q,
  )

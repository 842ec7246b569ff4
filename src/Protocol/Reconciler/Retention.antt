-- ===== src/Protocol/Reconciler/Retention.antt =====
-- src/protocol/reconciler.ts, `mergeConflictHistory`: how many resolved conflicts the state keeps.
use cursor_setting_sync.Base.{
  ℕ, zero, suc, ◌≤◌, ◌≡◌, refl, sym, ap, ◌∙◌, subst, inl, inr, none, some, List, [], ◌∷◌, map,
  length, length-take-le, take, In, In-append, filter, In-filter, In-map, In-map_inv, Bool-cases,
  Bool, true, false, ◌&&◌, arith, filter-append, length-append, option_eq,
}
use cursor_setting_sync.Base.Texts.{Text, text_eq}
use cursor_setting_sync.Base.Sets.{has-In, Distinct, without, length-without, In-without}
use cursor_setting_sync.Base.Sort.{sort, In-sort}
use cursor_setting_sync.Types.{SyncConflict}
use cursor_setting_sync.Protocol.Reconciler.Conflicts.{
  Host, merge_conflict_history, is_kept, is_new, is_recent, retained_resolved_ids, max_retained,
  newest_resolved_first,
}
use cursor_setting_sync.Protocol.Reconciler.History.{ids, kept-resolved}

In-take : {A : Type 0} (a : A) (n : ℕ) (xs : List A) → In a (take n xs) → In a xs
In-take a zero xs i = absurd i
In-take a (suc n) [] i = absurd i
In-take a (suc n) (x ∷ xs) (inl e) = inl e
In-take a (suc n) (x ∷ xs) (inr i) = inr (In-take a n xs i)

length-map {ℓ κ} :
    {A : Type ℓ} {B : Type κ} (f : A → B) (xs : List A) → length (map f xs) ≡ length xs
length-map f [] = refl
length-map f (x ∷ xs) = ap suc (length-map f xs)

retained-length :
    (host : Host) (existing : List SyncConflict)
    → length (retained_resolved_ids host existing) ≤ max_retained
unfolding retained_resolved_ids
retained-length host existing =
    rw
      (length-map _
        (take max_retained (sort (newest_resolved_first host) (filter (is_recent host) existing))))
      (length-take-le max_retained _)

retained-recent :
    (host : Host) (existing : List SyncConflict) (id : Text)
    → In id (retained_resolved_ids host existing)
    → (old : SyncConflict) × In old existing × (old.conflict_id ≡ id) × (is_recent host old ≡ true)
unfolding retained_resolved_ids
retained-recent host existing id i =
    let (old, j, e) = In-map_inv (λ (c : SyncConflict). c.conflict_id) id _ i in
    let (k, recent) =
      (In-filter (is_recent host) old existing).0
        ((In-sort (newest_resolved_first host) old _).0 (In-take old max_retained _ j)) in
    (old, k, e, recent)

abbrev pub is_resolved : SyncConflict → Bool
is_resolved conflict = elim conflict.resolved_at [ none ↦ false | some resolved_at ↦ true ]

filter-filter :
    (p q : SyncConflict → Bool) (xs : List SyncConflict)
    → length (filter p (filter q xs)) ≡ length (filter (λ x. q x && p x) xs)
unfolding filter
filter-filter p q [] = refl
filter-filter p q (x ∷ xs) = ground (arith, filter-filter p q xs)

filter-none :
    (p : SyncConflict → Bool) (xs : List SyncConflict)
    → ((x : SyncConflict) → In x xs → p x ≡ false)
    → length (filter p xs) ≡ 0
unfolding filter
filter-none p [] h = refl
filter-none p (x ∷ xs) h = ground (arith, h x (inl refl), filter-none p xs (λ y i. h y (inr i)))

-- Conflicts with distinct identifiers that are all in a list are no more than its members.
filter-fits :
    (p : SyncConflict → Bool) (xs : List SyncConflict) (allowed : List Text)
    → Distinct (ids xs)
    → ((x : SyncConflict) → In x xs → p x ≡ true → In x.conflict_id allowed)
    → length (filter p xs) ≤ length allowed
unfolding filter
filter-fits p [] allowed d h = omega arith
filter-fits p (x ∷ xs) allowed (new, d) h = elim (Bool-cases (p x)) [
  | inl t ↦
      let fewer = filter-fits p xs (without x.conflict_id allowed) d (λ y i k.
        In-without y.conflict_id x.conflict_id allowed (h y (inr i) k) (λ e. ground (
          arith,
          new,
          e,
          has-In x.conflict_id (ids xs),
          In-map (λ (c : SyncConflict). c.conflict_id) y xs i,
        ))) in
      rw t (omega (arith, fewer, length-without x.conflict_id allowed (h x (inl refl) t)))
  | inr f ↦ rw f (filter-fits p xs allowed d (λ y i k. h y (inr i) k))
]

same_conflict :
    (xs : List SyncConflict) (a b : SyncConflict)
    → Distinct (ids xs)
    → In a xs
    → In b xs
    → a.conflict_id ≡ b.conflict_id
    → a ≡ b
same_conflict [] a b d i j e = absurd i
same_conflict (x ∷ xs) a b (new, d) (inl p) (inl q) e = p ∙ sym q
same_conflict (x ∷ xs) a b (new, d) (inl p) (inr j) e = absurd (
    ground (
      arith,
      new,
      p,
      e,
      has-In x.conflict_id (ids xs),
      In-map (λ (c : SyncConflict). c.conflict_id) b xs j,
    ))
same_conflict (x ∷ xs) a b (new, d) (inr i) (inl q) e = absurd (
    ground (
      arith,
      new,
      q,
      e,
      has-In x.conflict_id (ids xs),
      In-map (λ (c : SyncConflict). c.conflict_id) a xs i,
    ))
same_conflict (x ∷ xs) a b (new, d) (inr i) (inr j) e = same_conflict xs a b d i j e

-- What a resolved conflict that is kept says.
kept-retained :
    (active_ids retained_ids : List Text) (conflict : SyncConflict)
    → is_kept active_ids retained_ids conflict && is_resolved conflict ≡ true
    → In conflict.conflict_id retained_ids
unfolding is_kept
kept-retained active_ids retained_ids conflict h =
    ground (arith, h, has-In conflict.conflict_id retained_ids)

module _ (host : Host) (existing active : List SyncConflict) (distinct : Distinct (ids existing))
    (open' : (conflict : SyncConflict) → In conflict active → conflict.resolved_at ≡ none) where
  resolved-length :
      length (filter is_resolved (merge_conflict_history host existing active)) ≤ max_retained
  unfolding merge_conflict_history
  resolved-length =
      let kept = filter (is_kept (ids active) (retained_resolved_ids host existing)) existing in
      let new = filter (is_new existing) active in
      omega (
        arith,
        ap (λ (l : List SyncConflict). length l) (filter-append is_resolved kept new),
        length-append (filter is_resolved kept) (filter is_resolved new),
        filter-none is_resolved new
            (λ x i. let o = open' x ((In-filter (is_new existing) x active).0 i).0 in rw o refl),
        filter-filter is_resolved (is_kept (ids active) (retained_resolved_ids host existing))
            existing,
        filter-fits
            (λ x. is_kept (ids active) (retained_resolved_ids host existing) x && is_resolved x)
            existing (retained_resolved_ids host existing) distinct
            (λ x i t. kept-retained (ids active) (retained_resolved_ids host existing) x t),
        retained-length host existing,
      )

  resolved-recent :
      (conflict : SyncConflict) (resolved_at : Text)
      → In conflict (merge_conflict_history host existing active)
      → conflict.resolved_at ≡ some resolved_at
      → In conflict existing × (is_recent host conflict ≡ true)
  unfolding merge_conflict_history
  resolved-recent conflict at i e = elim (In-append conflict _ _ i) [
    | inl j ↦
        let (k, kept) = (In-filter _ conflict existing).0 j in
        let id = (has-In conflict.conflict_id (retained_resolved_ids host existing)).0 (
          sym (kept-resolved (ids active) (retained_resolved_ids host existing) conflict at e)
          ∙ kept) in
        let (old, l, same, recent) = retained-recent host existing conflict.conflict_id id in
        (
          k,
          subst (λ (c : SyncConflict). is_recent host c ≡ true)
              (same_conflict existing old conflict distinct l k same) recent,
        )
    | inr j ↦
        let o = open' conflict ((In-filter (is_new existing) conflict active).0 j).0 in
        absurd (ground (arith, o, e))
  ]

-- Where the existing conflicts have distinct identifiers and the active ones are open, the history has
-- at most `max_retained` resolved conflicts, each of them existing and resolved within the retention
-- time.
pub merge-resolved :
    (host : Host) (existing active : List SyncConflict)
    → Distinct (ids existing)
    → ((conflict : SyncConflict) → In conflict active → conflict.resolved_at ≡ none)
    → (length (filter is_resolved (merge_conflict_history host existing active)) ≤ max_retained)
      × ((conflict : SyncConflict) (resolved_at : Text)
          → In conflict (merge_conflict_history host existing active)
          → conflict.resolved_at ≡ some resolved_at
          → In conflict existing × (is_recent host conflict ≡ true))
merge-resolved host existing active distinct open' = (
  resolved-length host existing active distinct open',
  resolved-recent host existing active distinct open',
)

-- ===== src/Sync/VersionPolicy/Filtering.antt =====
-- src/sync/versionPolicy.ts, `filterPublishableChanges`: what is published and what is reported.
use cursor_setting_sync.Base.{
  ℕ, ◌≡◌, refl, sym, ap, ◌∙◌, Bool, ◌&&◌, not, List, [], ◌∷◌, ◌++◌, map, leb, length, ++-nil,
  ++-assoc, filter, arith, ◌==◌,
}
use cursor_setting_sync.Base.Texts.{Text, text_eq}
use cursor_setting_sync.Base.Maps.{get, get-set}
use cursor_setting_sync.Types.{ResourceSnapshot, ResourceDeletion}
use cursor_setting_sync.Sync.VersionPolicy.Publishing.{
  Publishable, Refusal, refusal_of, bucket_or_none, admit_snapshot, admit_snapshots,
  filter_publishable_changes,
}

filter_first :
    {A : Type 0} (p : A → Bool) (x : A) (xs : List A)
    → filter p (x ∷ xs) ≡ filter p (x ∷ []) ++ filter p xs
unfolding filter
filter_first p x xs = ground arith

appended :
    {A : Type 0} (start one others : List A) {next end whole : List A}
    → next ≡ start ++ one
    → end ≡ next ++ others
    → whole ≡ one ++ others
    → end ≡ start ++ whole
appended start one others e f g =
    f ∙ ap (λ l. l ++ others) e ∙ ++-assoc start one others ∙ ap (◌++◌ start) (sym g)

module _ (limit : ℕ) (source_of : ResourceSnapshot → Text) where
  abbrev pub fits : ResourceSnapshot → Bool
  fits snapshot = leb (length snapshot.content) limit

  -- The refusals of one source, in order.
  abbrev pub refused_of : Text → List ResourceSnapshot → List Refusal
  refused_of source snapshots =
      map (refusal_of limit)
        (filter (λ snapshot. not (fits snapshot) && source_of snapshot == source) snapshots)

  record IsFiltered (start : Publishable) (snapshots : List ResourceSnapshot) (end : Publishable)
      : Type 0 where
    published : end.snapshots ≡ start.snapshots ++ filter fits snapshots
    untouched : end.deletions ≡ start.deletions
    warned :
        end.warnings
        ≡ start.warnings ++ map (refusal_of limit) (filter (λ s. not (fits s)) snapshots)
    sorted :
        (source : Text)
        → bucket_or_none (get end.warnings_by_source source)
          ≡ bucket_or_none (get start.warnings_by_source source) ++ refused_of source snapshots

  step-IsFiltered :
      (so_far : Publishable) (snapshot : ResourceSnapshot)
      → IsFiltered so_far (snapshot ∷ []) (admit_snapshot limit source_of so_far snapshot)
  unfolding admit_snapshot filter
  step-IsFiltered so_far snapshot = record {
    published = ground (arith, ++-nil so_far.snapshots);
    untouched = ground arith;
    warned = ground (arith, ++-nil so_far.warnings);
    sorted = λ source. ground (
      arith,
      ++-nil (bucket_or_none (get so_far.warnings_by_source source)),
      get-set so_far.warnings_by_source (source_of snapshot) source (
          bucket_or_none (get so_far.warnings_by_source (source_of snapshot))
          ++ refusal_of limit snapshot ∷ []),
      text_eq.equals_iff (source_of snapshot) source,
    );
  }

  admit_snapshots-IsFiltered :
      (so_far : Publishable) (snapshots : List ResourceSnapshot)
      → IsFiltered so_far snapshots (admit_snapshots limit source_of so_far snapshots)
  unfolding admit_snapshots filter
  admit_snapshots-IsFiltered so_far [] = record {
    published = sym (++-nil so_far.snapshots);
    untouched = refl;
    warned = sym (++-nil so_far.warnings);
    sorted = λ source. sym (++-nil (bucket_or_none (get so_far.warnings_by_source source)));
  }
  admit_snapshots-IsFiltered so_far (snapshot ∷ rest) =
      let next = admit_snapshot limit source_of so_far snapshot in
      let one = step-IsFiltered so_far snapshot in
      let others = admit_snapshots-IsFiltered next rest in
      record {
        published =
            appended so_far.snapshots (filter fits (snapshot ∷ [])) (filter fits rest) one.published
              others.published (filter_first fits snapshot rest);
        untouched = others.untouched ∙ one.untouched;
        warned =
            appended so_far.warnings (map (refusal_of limit) (filter refused (snapshot ∷ [])))
              (map (refusal_of limit) (filter refused rest)) one.warned others.warned
              (refusals_first refused snapshot rest);
        sorted = λ source.
            appended (bucket_or_none (get so_far.warnings_by_source source))
              (refused_of source (snapshot ∷ [])) (refused_of source rest) (one.sorted source)
              (others.sorted source)
              (refusals_first (λ s. not (fits s) && source_of s == source) snapshot rest);
      }
    where
      refused : ResourceSnapshot → Bool
      refused s = not (fits s)

      refusals_first :
          (p : ResourceSnapshot → Bool) (s : ResourceSnapshot) (xs : List ResourceSnapshot)
          → map (refusal_of limit) (filter p (s ∷ xs))
            ≡ map (refusal_of limit) (filter p (s ∷ [])) ++ map (refusal_of limit) (filter p xs)
      refusals_first p s xs = ground arith

  -- What is published is exactly the snapshots that fit, in order, and every deletion; each snapshot
  -- that does not fit has its warning, in order, and again in the bucket of its source.
  pub filter_publishable_changes_lem :
      (snapshots : List ResourceSnapshot) (deletions : List ResourceDeletion)
      → let result = filter_publishable_changes snapshots deletions limit source_of in
        (result.snapshots ≡ filter fits snapshots)
        × (result.deletions ≡ deletions)
        × (result.warnings ≡ map (refusal_of limit) (filter (λ s. not (fits s)) snapshots))
        × ((source : Text)
            → bucket_or_none (get result.warnings_by_source source) ≡ refused_of source snapshots)
  unfolding filter_publishable_changes get
  filter_publishable_changes_lem snapshots deletions =
      let done =
        admit_snapshots-IsFiltered
          (record { snapshots = []; deletions = deletions; warnings = []; warnings_by_source = [] })
          snapshots in
      (done.published, done.untouched, done.warned, done.sorted)

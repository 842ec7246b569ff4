-- ===== src/Sync/WarningLog/Standing.antt =====
-- src/sync/warningLog.ts, `observe`: which warnings stand after an observation.
use cursor_setting_sync.Base.{
  ℕ, ◌≡◌, refl, ap, ◌∙◌, inl, inr, true, false, Option, none, some, List, [], ◌∷◌, ◌++◌, arith, ltb,
  length, if◌then◌else◌, ◌==◌, Bool-cases, subst, beq_refl, eq_cases,
}
use cursor_setting_sync.Base.Texts.{Text, text_eq}
use cursor_setting_sync.Base.Maps.{Map, get, set, get-set, HasKeys}
use cursor_setting_sync.Base.Sets.{has, distinct_from, has-distinct_from}
use cursor_setting_sync.Sync.WarningLog.{
  StandingWarning, WarningLogEntry, WarningObservation, Bucket, Buckets, remove, observe_warning,
  standing_in, observe_warnings, observe_source, observe_sources, observe,
}

get-remove :
    {V : Type 0} (m : Map Text V) (k j : Text)
    → get (remove m k) j ≡ (if k == j then none else get m j)
unfolding get remove
get-remove [] k j = ground arith
get-remove ((i, v) ∷ m) k j = ground (
  arith,
  text_eq.equals_iff i k,
  text_eq.equals_iff i j,
  text_eq.equals_iff k j,
  get-remove m k j,
)

module _ (interval : ℕ) (input : WarningObservation) (source : Text)
    (previous : Option Bucket) where
  get-observe_warnings :
      (next : Bucket) (entries : List WarningLogEntry) (ws : List Text) (w : Text)
      → get (observe_warnings interval input source previous (next, entries) ws).0 w ≡ (
          if has w ws
          then some (observe_warning interval input source (standing_in previous w) w).0
          else get next w)
  unfolding observe_warnings has
  get-observe_warnings next entries [] w = refl
  get-observe_warnings next entries (x ∷ ws) w =
      let seen = observe_warning interval input source (standing_in previous x) x in
      let rest = get-observe_warnings (set next x seen.0) (entries ++ seen.1) ws w in
      ground (arith, rest, get-set next x w seen.0, text_eq.equals_iff x w, text_eq.equals_iff w x)

abbrev put_back : Buckets → Text → Bucket → Buckets
put_back buckets source next =
    if ltb 0 (length next) then set buckets source next else remove buckets source

standing-put_back :
    (buckets : Buckets) (source : Text) (next : Bucket) (w : Text)
    → standing_in (get (put_back buckets source next) source) w ≡ get next w
unfolding get
standing-put_back buckets source [] w = rw (get-remove buckets source source, beq_refl source) refl
standing-put_back buckets source (x ∷ xs) w =
    let some_left : ltb 0 (length (x ∷ xs)) ≡ true = ground arith in
    rw (some_left, get-set buckets source source (x ∷ xs), beq_refl source) refl

other-put_back :
    (buckets : Buckets) (source other : Text) (next : Bucket)
    → (source == other) ≡ false
    → get (put_back buckets source next) other ≡ get buckets other
other-put_back buckets source other next h =
    ground (arith, h, get-remove buckets source other, get-set buckets source other next)

module _ (interval : ℕ) (input : WarningObservation) where
  -- The bucket that an observed source leaves.
  abbrev pub observed : Option Bucket → Text → List Text → Text → Option StandingWarning
  observed previous source warnings warning =
      if has warning warnings
      then some (observe_warning interval input source (standing_in previous warning) warning).0
      else none

  standing-observe_source :
      (buckets : Buckets) (entries : List WarningLogEntry) (source : Text) (ws : List Text)
      (w : Text)
      → standing_in (get (observe_source interval input (buckets, entries) source ws).0 source) w
        ≡ observed (get buckets source) source ws w
  unfolding observe_source get
  standing-observe_source buckets entries source ws w =
      standing-put_back buckets source _ w
      ∙ get-observe_warnings interval input source (get buckets source) [] entries
          (distinct_from [] ws) w
      ∙ rw (has-distinct_from w ws) refl

  other-observe_source :
      (buckets : Buckets) (entries : List WarningLogEntry) (source other : Text) (ws : List Text)
      → (source == other) ≡ false
      → get (observe_source interval input (buckets, entries) source ws).0 other ≡ get buckets other
  unfolding observe_source
  other-observe_source buckets entries source other ws h = other-put_back buckets source other _ h

  other-observe_sources :
      (buckets : Buckets) (entries : List WarningLogEntry) (sources : Map Text (List Text))
      (other : Text)
      → get sources other ≡ none
      → get (observe_sources interval input (buckets, entries) sources).0 other ≡ get buckets other
  unfolding observe_sources get
  other-observe_sources buckets entries [] other h = refl
  other-observe_sources buckets entries ((source, ws) ∷ rest) other h =
      let (after, logged) = observe_source interval input (buckets, entries) source ws in
      elim (Bool-cases (source == other)) [
        | inl t ↦ absurd (ground (arith, t, h))
        | inr f ↦
            other-observe_sources after logged rest other (ground (arith, f, h))
            ∙ other-observe_source buckets entries source other ws f
      ]

  standing-observe_sources :
      (buckets : Buckets) (entries : List WarningLogEntry) (sources : Map Text (List Text))
      (source : Text) (ws : List Text) (w : Text)
      → HasKeys sources
      → get sources source ≡ some ws
      → standing_in (get (observe_sources interval input (buckets, entries) sources).0 source) w
        ≡ observed (get buckets source) source ws w
  unfolding observe_sources get
  standing-observe_sources buckets entries [] source ws w k h = absurd (ground (arith, h))
  standing-observe_sources buckets entries ((first, vs) ∷ rest) source ws w (new, k) h =
      let (after, logged) = observe_source interval input (buckets, entries) first vs in
      elim (eq_cases first source) [
        | inl (t, e) ↦
            let same : vs ≡ ws = ground (arith, t, h) in
            rw (e, same)
              (ap (λ (o : Option Bucket). standing_in o w)
                  (other-observe_sources
                    (observe_source interval input (buckets, entries) source ws).0
                    (observe_source interval input (buckets, entries) source ws).1 rest source
                    (subst (λ (z : Text). get rest z ≡ none) e new))
                ∙ standing-observe_source buckets entries source ws w)
        | inr (f, _) ↦
            standing-observe_sources after logged rest source ws w k (ground (arith, f, h))
            ∙ ap (λ (o : Option Bucket). observed o source ws w)
                (other-observe_source buckets entries first source vs f)
      ]

  observe-buckets :
      (buckets : Buckets)
      → (observe interval input buckets).0
        ≡ (observe_sources interval input (buckets, []) input.sources).0
  unfolding observe
  observe-buckets buckets = ground arith

  -- Of a source that ran, exactly the observed warnings stand afterwards, each as a new one or as the
  -- one that stood before, carried on. A source that did not run keeps its bucket as it was.
  pub observe_lem :
      (buckets : Buckets)
      → HasKeys input.sources
      → ((source : Text) (warnings : List Text) (warning : Text)
          → get input.sources source ≡ some warnings
          → standing_in (get (observe interval input buckets).0 source) warning
            ≡ observed (get buckets source) source warnings warning)
        × ((source : Text)
            → get input.sources source ≡ none
            → get (observe interval input buckets).0 source ≡ get buckets source)
  observe_lem buckets k = (
    λ source ws w h.
        rw (observe-buckets buckets)
          (standing-observe_sources buckets [] input.sources source ws w k h),
    λ source h.
        rw (observe-buckets buckets) (other-observe_sources buckets [] input.sources source h),
  )

-- ===== src/Sync/WarningLog.antt =====
-- src/sync/warningLog.ts: `StandingWarningRegistry`, which warnings stand and when they are logged.
pub mod Standing
use cursor_setting_sync.Base.{
  ℕ, suc, ◌+◌, ◌-◌, Bool, true, false, ◌||◌, not, Option, none, some, List, [], ◌∷◌, ◌++◌, map, leb,
  ltb, length, take, ◌*◌, filter, flat_map, compare, Ordering, if◌then◌else◌, ◌==◌, list_eq,
}
use cursor_setting_sync.Base.Texts.{Text, units, text_eq}
use cursor_setting_sync.Base.Maps.{Map, get, set, keys, values}
use cursor_setting_sync.Base.Sets.{has, distinct_from}
use cursor_setting_sync.Base.Sort.{sort}

pub record StandingWarning : Type 0 where
  pub source : Text
  pub warning : Text
  pub first_seen_at : ℕ
  pub last_seen_at : ℕ
  pub last_logged_at : ℕ
  pub observations : ℕ

-- `WarningLogReason`: "new", "reminder", "manual".
pub data WarningLogReason : Type 0 where
  fresh reminder manual : WarningLogReason

pub record WarningLogEntry : Type 0 where
  pub source : Text
  pub warning : Text
  pub reason : WarningLogReason
  pub standing_for_ms : ℕ

abbrev pub Bucket : Type 0
Bucket = Map Text StandingWarning

abbrev pub Buckets : Type 0
Buckets = Map Text Bucket

-- `STANDING_WARNING_REMINDER_MS`, the interval where the constructor is given none.
abbrev pub standing_warning_reminder_ms : ℕ
standing_warning_reminder_ms = 60 * 60 * 1000

pub record WarningObservation : Type 0 where
  pub sources : Map Text (List Text)
  pub now : ℕ
  pub force : Bool

-- `map.delete(key)`.
unfoldable pub remove {ℓ} : {V : Type ℓ} → Map Text V → Text → Map Text V
remove [] key = []
remove ((k, v) ∷ m) key = let rest = remove m key in if k == key then rest else (k, v) ∷ rest

-- `previous?.get(warning)`.
abbrev pub standing_in : Option Bucket → Text → Option StandingWarning
standing_in none warning = none
standing_in (some bucket) warning = get bucket warning

module _ (reminder_interval_ms : ℕ) (input : WarningObservation) where
  abbrev pub is_due : StandingWarning → Bool
  is_due standing = leb (standing.last_logged_at + reminder_interval_ms) input.now

  -- One warning of a source that ran: how it stands now, and what is logged.
  unfoldable pub observe_warning :
      Text → Option StandingWarning → Text → StandingWarning × List WarningLogEntry
  observe_warning source none warning = (
    record {
      source = source;
      warning = warning;
      first_seen_at = input.now;
      last_seen_at = input.now;
      last_logged_at = input.now;
      observations = 1;
    },
    record { source = source; warning = warning; reason = fresh; standing_for_ms = 0 } ∷ [],
  )
  observe_warning source (some standing) warning =
      let carried : StandingWarning = record standing {
        last_seen_at = input.now;
        observations = standing.observations + 1;
      } in
      if is_due standing || input.force
      then (
        record carried { last_logged_at = input.now },
        record {
          source = source;
          warning = warning;
          reason = if is_due standing then reminder else manual;
          standing_for_ms = input.now - standing.first_seen_at;
        }
            ∷ [],
      )
      else (carried, [])

  -- The loop over one source's warnings: the next bucket and the entries.
  unfoldable pub observe_warnings :
      Text
      → Option Bucket
      → Bucket × List WarningLogEntry
      → List Text
      → Bucket × List WarningLogEntry
  observe_warnings source previous so_far [] = so_far
  observe_warnings source previous (next, entries) (warning ∷ warnings) =
      let (standing, logged) = observe_warning source (standing_in previous warning) warning in
      observe_warnings source previous (set next warning standing, entries ++ logged) warnings

  -- One round of the loop over the sources.
  unfoldable pub observe_source :
      Buckets × List WarningLogEntry → Text → List Text → Buckets × List WarningLogEntry
  observe_source (buckets, entries) source warnings =
      let (next, logged) =
        observe_warnings source (get buckets source) ([], entries) (distinct_from [] warnings) in
      (if ltb 0 (length next) then set buckets source next else remove buckets source, logged)

  unfoldable pub observe_sources :
      Buckets × List WarningLogEntry → Map Text (List Text) → Buckets × List WarningLogEntry
  observe_sources so_far [] = so_far
  observe_sources so_far ((source, warnings) ∷ rest) =
      observe_sources (observe_source so_far source warnings) rest

  -- What a manual run shows of a bucket that no source looked at again.
  abbrev pub shown : Text → StandingWarning → WarningLogEntry
  shown source standing = record {
    source = source;
    warning = standing.warning;
    reason = manual;
    standing_for_ms = input.now - standing.first_seen_at;
  }

  unfoldable pub show_others : Buckets → List WarningLogEntry
  show_others [] = []
  show_others ((source, bucket) ∷ rest) =
      let others = show_others rest in
      if has source (keys input.sources)
      then others
      else map (shown source) (values bucket) ++ others

  -- `observe`.
  unfoldable pub observe : Buckets → Buckets × List WarningLogEntry
  observe buckets =
      let (after, entries) = observe_sources (buckets, []) input.sources in
      if input.force then (after, entries ++ show_others after) else (after, entries)

abbrev pub oldest_first : StandingWarning → StandingWarning → Ordering
oldest_first left right = compare left.first_seen_at right.first_seen_at

-- `standing`, `standingFor`, `standingMatching`.
unfoldable pub standing : Buckets → List StandingWarning
standing buckets = sort oldest_first (flat_map values (values buckets))

abbrev pub or_no_bucket : Option Bucket → Bucket
or_no_bucket none = []
or_no_bucket (some bucket) = bucket

unfoldable pub standing_for : Buckets → Text → List StandingWarning
standing_for buckets source = sort oldest_first (values (or_no_bucket (get buckets source)))

unfoldable pub standing_matching : Buckets → (Text → Bool) → List StandingWarning
standing_matching buckets match = filter (λ entry. match entry.source) (standing buckets)

-- `retainSources`.
unfoldable pub retain_sources : Buckets → List Text → Buckets
retain_sources [] sources = []
retain_sources ((source, bucket) ∷ rest) sources =
    let others = retain_sources rest sources in
    if has source sources then (source, bucket) ∷ others else others

-- `publishWarningSource` and `isPublishWarningSource`.
unfoldable pub publish_warning_source : Text → Text
publish_warning_source adapter_id = units "publish:" ++ adapter_id

unfoldable pub is_publish_warning_source : Text → Bool
is_publish_warning_source source = source == units "publish" || take 8 source == units "publish:"

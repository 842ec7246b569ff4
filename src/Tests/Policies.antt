-- ===== src/Tests/Policies.antt =====
-- src/sync/versionPolicy.ts and src/sync/warningLog.ts: the theorems at small inputs.
use cursor_setting_sync.Base.{
  ℕ, ◌≡◌, refl, ◌⊎◌, true, false, none, some, List, [], ◌∷◌, All, list_beq, option_beq, option_eq,
}
use cursor_setting_sync.Base.Texts.{Text, units, text_eq}
use cursor_setting_sync.Base.Maps.{get, HasKeys}
use cursor_setting_sync.Types.{
  EventProducer, JsonFields, end, field, string, ResourceSnapshot, settings,
}
use cursor_setting_sync.Types.Json.{field_at}
use cursor_setting_sync.Protocol.CheckpointMarker.{ordinary, classify, is_marker}
use cursor_setting_sync.Sync.VersionPolicy.Provenance.{
  parse_event_producer, producer_as_metadata, effective_version_producer, marker_producer,
  original_producer,
}
use cursor_setting_sync.Sync.VersionPolicy.Laundering.{
  IsCarried, effective_version_producer-IsCarried,
}
use cursor_setting_sync.Sync.VersionPolicy.Batches.{publish_in_batches}
use cursor_setting_sync.Sync.VersionPolicy.Splitting.{
  snapshots_of, deletions_of, Fits, publish_in_batches-Fits,
}
use cursor_setting_sync.Sync.WarningLog.{WarningObservation, StandingWarning, observe, standing_in}
use cursor_setting_sync.Sync.WarningLog.Standing.{observed, observe_lem}

abbrev producer_of : Text → Text → EventProducer
producer_of extension_version cursor_version = record {
  extension_version = extension_version;
  cursor_version = cursor_version;
  vscode_version = units "1.99";
  cursor_data_schema = some (units "7");
}

-- A newer computer wrote the content, an older one the marker.
abbrev newer : EventProducer
newer = producer_of (units "0.2") (units "2.0")

abbrev older : EventProducer
older = producer_of (units "0.3") (units "1.0")

marker : JsonFields
unfolding producer_as_metadata
marker =
    field (units "syncOrigin") (string (units "checkpoint-marker"))
      (field (units "checkpointedProducer") (producer_as_metadata newer) end)

is_a_marker : is_marker marker ≡ true
unfolding marker producer_as_metadata field_at list_beq option_beq
is_a_marker = refl

judged :
    effective_version_producer (some marker) (some older)
    ≡ some (producer_of (units "0.3") (units "2.0"))
unfolding marker producer_as_metadata field_at list_beq option_beq effective_version_producer
    marker_producer parse_event_producer
judged = refl

effective_version_producer-IsCarried_example :
    ((classify marker ≡ some ordinary)
      × (some older ≡ some (producer_of (units "0.3") (units "2.0"))))
    ⊎ ((source : EventProducer) × ((parse_event_producer
              (field_at marker (units "checkpointedProducer"))
            ≡ some source)
          ⊎ (original_producer marker ≡ some source))
        × IsCarried (some older) source (producer_of (units "0.3") (units "2.0")))
effective_version_producer-IsCarried_example =
    effective_version_producer-IsCarried marker (some older)
      (producer_of (units "0.3") (units "2.0")) is_a_marker judged

-- Items that stand for their own cost.
abbrev own_cost : ℕ → ℕ
own_cost n = n

publish_in_batches-Fits_example :
    (snapshots_of own_cost own_cost
        (publish_in_batches own_cost own_cost (4000000 ∷ 500000 ∷ []) (7 ∷ []))
      ≡ 4000000 ∷ 500000 ∷ [])
    × (deletions_of own_cost own_cost
          (publish_in_batches own_cost own_cost (4000000 ∷ 500000 ∷ []) (7 ∷ []))
        ≡ 7 ∷ [])
    × All
        (Fits own_cost own_cost)
        (publish_in_batches own_cost own_cost (4000000 ∷ 500000 ∷ []) (7 ∷ []))
publish_in_batches-Fits_example =
    publish_in_batches-Fits own_cost own_cost (4000000 ∷ 500000 ∷ []) (7 ∷ [])

abbrev snapshot_of : Text → List ℕ → ResourceSnapshot
snapshot_of resource_id content = record {
  resource_id = resource_id;
  kind = settings;
  content = content;
  semantic_hash = [];
  metadata = none;
  parents = none;
}

abbrev small_and_large : List ResourceSnapshot
small_and_large = snapshot_of (units "s") (1 ∷ []) ∷ snapshot_of (units "l") (1 ∷ 2 ∷ 3 ∷ []) ∷ []

abbrev one_source : ResourceSnapshot → Text
one_source snapshot = units "publish"

-- The reconciler ran and has one warning, the settings ran and have none.
abbrev observation : WarningObservation
observation = record {
  sources = (units "reconciler", units "gap" ∷ []) ∷ (units "settings", []) ∷ [];
  now = 1000;
  force = false;
}

no_key_twice : HasKeys observation.sources
unfolding get list_beq
no_key_twice = (refl, (refl, tt))

observe_lem_example :
    ((source : Text) (warnings : List Text) (warning : Text)
      → get observation.sources source ≡ some warnings
      → standing_in (get (observe 60 observation []).0 source) warning
        ≡ observed 60 observation
            (get {V = List (Text × StandingWarning)} [] source)
            source
            warnings
            warning)
    × ((source : Text)
        → get observation.sources source ≡ none
        → get (observe 60 observation []).0 source ≡ get [] source)
observe_lem_example = observe_lem 60 observation [] no_key_twice

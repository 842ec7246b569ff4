-- ===== src/Protocol/CheckpointMarker.antt =====
-- src/protocol/checkpointMarker.ts: which recipe an old checkpoint marker stands for.
use cursor_setting_sync.Base.{
  ℕ, Bool, true, false, ◌&&◌, ◌||◌, not, Option, none, some, List, [], ◌∷◌, leb, ltb, length, take,
  drop, every, some_of, if◌then◌else◌, ◌==◌, option_eq,
}
use cursor_setting_sync.Base.Texts.{Text, units, text_eq}
use cursor_setting_sync.Types.{JsonFields, JsonValue}
use cursor_setting_sync.Types.Json.{
  field_at, has_own, as_text, as_object, is_natural_number, is_number, number_passes,
}
use cursor_setting_sync.Protocol.Reconciler.Streams.{is_hash, is_hash_or_null}

pub data LegacyCheckpointMarkerKind : Type 0 where
  ordinary automatic_chat_repair agent_kv_enrichment : LegacyCheckpointMarkerKind
  version_restore ambiguous_special : LegacyCheckpointMarkerKind

abbrev pub is_some_text : Option Text → Bool
is_some_text none = false
is_some_text (some text) = true

-- `isEventProducerMetadata`.
unfoldable pub is_event_producer_metadata : Option JsonValue → Bool
is_event_producer_metadata value = elim (as_object value) [
  | none ↦ false
  | some fields ↦
      is_some_text (as_text (field_at fields (units "extensionVersion")))
      && is_some_text (as_text (field_at fields (units "cursorVersion")))
      && is_some_text (as_text (field_at fields (units "vscodeVersion")))
]

abbrev is_digit : ℕ → Bool
is_digit c = leb b'0' c && leb c b'9'

-- `/^[a-f0-9]{64}#\d+$/`.
unfoldable pub is_version : Text → Bool
is_version text =
    is_hash (take 64 text)
    && take 1 (drop 64 text) == units "#"
    && ltb 65 (length text)
    && every is_digit (drop 65 text)

abbrev pub is_version_or_none : Option Text → Bool
is_version_or_none none = false
is_version_or_none (some text) = is_version text

-- `isUnambiguousLegacyEnrichment`.
unfoldable pub is_unambiguous_legacy_enrichment : JsonFields → Bool
is_unambiguous_legacy_enrichment metadata =
    is_event_producer_metadata (field_at metadata (units "originalProducer"))
    && is_version_or_none (as_text (field_at metadata (units "enrichedFromVersionId")))
    && is_hash_or_null (as_text (field_at metadata (units "enrichedFromSemanticHash")))
    && number_passes (is_number 2) (field_at metadata (units "chatSnapshotSchemaVersion"))
    && number_passes is_natural_number (field_at metadata (units "agentKvBlobCount"))
    && number_passes is_natural_number (field_at metadata (units "agentKvReferencedCount"))
    && number_passes is_natural_number (field_at metadata (units "agentKvMissingCount"))
    && is_hash_or_null (as_text (field_at metadata (units "chatCoreHash")))

abbrev pub provenance_fields : List Text
provenance_fields =
    units "checkpointedProducer"
    ∷ units "checkpointedSyncOrigin"
    ∷ units "checkpointedSourceDeviceId"
    ∷ units "checkpointedVersionId"
    ∷ []

abbrev pub repair_fields : List Text
repair_fields =
    units "repairOriginDeviceId" ∷ units "repairFingerprint" ∷ units "repairedBubbleCount" ∷ []

-- `metadata?.syncOrigin === "checkpoint-marker"`.
abbrev pub is_marker : JsonFields → Bool
is_marker metadata =
    as_text (field_at metadata (units "syncOrigin")) == some (units "checkpoint-marker")

-- `classifyLegacyCheckpointMarker` on metadata that is there; on none it is null.
unfoldable pub classify : JsonFields → Option LegacyCheckpointMarkerKind
classify metadata =
    if not (is_marker metadata) || some_of (has_own metadata) provenance_fields
    then none
    else if some_of (has_own metadata) repair_fields
    then some automatic_chat_repair
    else if has_own metadata (units "enrichedFromVersionId")
        || has_own metadata (units "enrichedFromSemanticHash")
    then (if is_unambiguous_legacy_enrichment metadata
        then some agent_kv_enrichment
        else some ambiguous_special)
    else if has_own metadata (units "originalProducer")
    then (if is_event_producer_metadata (field_at metadata (units "originalProducer"))
        then some version_restore
        else some ambiguous_special)
    else some ordinary

-- ===== src/Sync/VersionPolicy/Provenance.antt =====
-- src/sync/versionPolicy.ts: the recipe and the producer that a synthetic version stands for.
use cursor_setting_sync.Base.{Bool, ◌||◌, not, Option, none, some, if◌then◌else◌, ◌==◌, option_eq}
use cursor_setting_sync.Base.Texts.{Text, units, text_eq}
use cursor_setting_sync.Types.{
  EventProducer, JsonFields, JsonValue, string, object, end, field, ResourceTip,
}
use cursor_setting_sync.Types.Json.{field_at, as_text, as_object}
use cursor_setting_sync.Protocol.CheckpointMarker.{
  LegacyCheckpointMarkerKind, ordinary, automatic_chat_repair, agent_kv_enrichment, version_restore,
  ambiguous_special, classify, is_marker,
}

-- `metadata?.syncOrigin`, where it is a string.
abbrev pub sync_origin : Option JsonFields → Option Text
sync_origin none = none
sync_origin (some metadata) = as_text (field_at metadata (units "syncOrigin"))

abbrev pub producer_of_texts :
    Option Text → Option Text → Option Text → Option Text → Option EventProducer
producer_of_texts (some extension_version) (some cursor_version) (some vscode_version) schema =
    some (record {
      extension_version = extension_version;
      cursor_version = cursor_version;
      vscode_version = vscode_version;
      cursor_data_schema = schema;
    })
producer_of_texts none b c schema = none
producer_of_texts (some a) none c schema = none
producer_of_texts (some a) (some b) none schema = none

abbrev pub producer_of_fields : Option JsonFields → Option EventProducer
producer_of_fields none = none
producer_of_fields (some fields) =
    producer_of_texts (as_text (field_at fields (units "extensionVersion")))
      (as_text (field_at fields (units "cursorVersion")))
      (as_text (field_at fields (units "vscodeVersion")))
      (as_text (field_at fields (units "cursorDataSchema")))

-- `parseEventProducer`.
unfoldable pub parse_event_producer : Option JsonValue → Option EventProducer
parse_event_producer value = producer_of_fields (as_object value)

abbrev pub schema_field : Option Text → JsonFields → JsonFields
schema_field none fields = fields
schema_field (some schema) fields = field (units "cursorDataSchema") (string schema) fields

-- `producerAsMetadata`.
unfoldable pub producer_as_metadata : EventProducer → JsonValue
producer_as_metadata producer = object (
    schema_field producer.cursor_data_schema (
      field (units "extensionVersion") (string producer.extension_version) (
        field (units "cursorVersion") (string producer.cursor_version)
          (field (units "vscodeVersion") (string producer.vscode_version) end))))

abbrev pub legacy_origin : Text → Option LegacyCheckpointMarkerKind → Text
legacy_origin direct none = direct
legacy_origin direct (some ordinary) = direct
legacy_origin direct (some automatic_chat_repair) = units "automatic-chat-repair"
legacy_origin direct (some agent_kv_enrichment) = units "agent-kv-enrichment"
legacy_origin direct (some version_restore) = units "version-restore"
legacy_origin direct (some ambiguous_special) = direct

-- `effectiveSyncOrigin`.
unfoldable pub effective_sync_origin : Option JsonFields → Option Text
effective_sync_origin none = none
effective_sync_origin (some metadata) = elim (as_text (field_at metadata (units "syncOrigin"))) [
  | none ↦ none
  | some direct ↦
      if not (direct == units "checkpoint-marker")
      then some direct
      else elim (as_text (field_at metadata (units "checkpointedSyncOrigin"))) [
        | some checkpointed ↦ some checkpointed
        | none ↦ some (legacy_origin direct (classify metadata))
      ]
]

-- `{ ...original, extensionVersion: producer.extensionVersion, … }`; none without a producer.
abbrev pub with_extension_of : Option EventProducer → EventProducer → Option EventProducer
with_extension_of none original = none
with_extension_of (some producer) original =
    some (record original { extension_version = producer.extension_version })

-- What the old markers, which name no producer, let through.
abbrev pub legacy_producer :
    Option LegacyCheckpointMarkerKind → Option EventProducer → Option (Option EventProducer)
legacy_producer none producer = none
legacy_producer (some ordinary) producer = some producer
legacy_producer (some automatic_chat_repair) producer = some none
legacy_producer (some agent_kv_enrichment) producer = none
legacy_producer (some version_restore) producer = none
legacy_producer (some ambiguous_special) producer = some none

abbrev pub original_producer : JsonFields → Option EventProducer
original_producer metadata = parse_event_producer (field_at metadata (units "originalProducer"))

-- The part of `effectiveVersionProducer` after the branches of the marker.
unfoldable pub producer_by_origin : JsonFields → Option EventProducer → Option EventProducer
producer_by_origin metadata producer =
    let unproven = if is_marker metadata then none else producer in
    let origin = effective_sync_origin (some metadata) in
    if origin == some (units "agent-kv-enrichment")
    then elim (original_producer metadata) [
      | none ↦ none
      | some original ↦ with_extension_of producer original
    ]
    else if origin == some (units "version-restore")
    then elim (original_producer metadata) [
      | none ↦ unproven
      | some original ↦
          if is_marker metadata then with_extension_of producer original else some original
    ]
    else unproven

-- The branches of a marker; `none` outside goes on.
unfoldable pub marker_producer : JsonFields → Option EventProducer → Option (Option EventProducer)
marker_producer metadata producer =
    elim (parse_event_producer (field_at metadata (units "checkpointedProducer"))) [
      | none ↦ legacy_producer (classify metadata) producer
      | some checkpointed ↦ elim producer [
        | none ↦ legacy_producer (classify metadata) none
        | some direct ↦ some (with_extension_of (some direct) checkpointed)
      ]
    ]

-- `effectiveVersionProducer`.
unfoldable pub effective_version_producer :
    Option JsonFields → Option EventProducer → Option EventProducer
effective_version_producer none producer = producer
effective_version_producer (some metadata) producer =
    if is_marker metadata
    then elim (marker_producer metadata producer) [
      | some decided ↦ decided
      | none ↦ producer_by_origin metadata producer
    ]
    else producer_by_origin metadata producer

-- `effectiveTipProducer`.
unfoldable pub effective_tip_producer : ResourceTip → Option EventProducer
effective_tip_producer tip = effective_version_producer tip.metadata tip.producer

-- `isSyntheticTip`.
unfoldable pub is_synthetic_tip : ResourceTip → Bool
is_synthetic_tip tip =
    let origin = sync_origin tip.metadata in
    origin == some (units "conflict-resolution")
    || origin == some (units "auto-merge")
    || origin == some (units "version-restore")
    || origin == some (units "automatic-chat-repair")
    || origin == some (units "agent-kv-enrichment")
    || origin == some (units "checkpoint-marker")

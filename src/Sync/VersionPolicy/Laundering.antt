-- ===== src/Sync/VersionPolicy/Laundering.antt =====
-- src/sync/versionPolicy.ts, `effectiveVersionProducer`: by whose versions a marker is judged.
use cursor_setting_sync.Base.{
  ◌≡◌, refl, ◌⊎◌, inl, inr, true, Option, none, some, arith, Option-cases, list_beq, option_eq,
}
use cursor_setting_sync.Base.Texts.{units, text_eq}
use cursor_setting_sync.Types.{EventProducer, JsonFields}
use cursor_setting_sync.Types.Json.{field_at}
use cursor_setting_sync.Protocol.CheckpointMarker.{
  LegacyCheckpointMarkerKind, ordinary, automatic_chat_repair, agent_kv_enrichment, version_restore,
  ambiguous_special, classify, is_marker,
}
use cursor_setting_sync.Sync.VersionPolicy.Provenance.{
  parse_event_producer, producer_as_metadata, with_extension_of, original_producer,
  producer_by_origin, marker_producer, effective_version_producer, legacy_producer,
}

-- What is written of a producer is read back as it was.
pub parse-producer_as_metadata :
    (p : EventProducer) → parse_event_producer (some (producer_as_metadata p)) ≡ some p
unfolding parse_event_producer producer_as_metadata field_at list_beq
parse-producer_as_metadata p = elim (Option-cases p.cursor_data_schema) [
  | inl n ↦ rw n refl
  | inr (schema, e) ↦ rw e refl
]

-- All but the extension's version is the source's.
pub record IsCarried (producer : Option EventProducer) (source p : EventProducer) : Type 0 where
  pub direct : EventProducer
  pub is_direct : producer ≡ some direct
  pub extension : p.extension_version ≡ direct.extension_version
  pub cursor : p.cursor_version ≡ source.cursor_version
  pub vscode : p.vscode_version ≡ source.vscode_version
  pub schema : p.cursor_data_schema ≡ source.cursor_data_schema

with_extension-IsCarried :
    (producer : Option EventProducer) (source p : EventProducer)
    → with_extension_of producer source ≡ some p
    → IsCarried producer source p
with_extension-IsCarried none source p h = absurd (cc)
with_extension-IsCarried (some direct) source p h = record {
  direct = direct;
  is_direct = refl;
  extension = ground arith;
  cursor = ground arith;
  vscode = ground arith;
  schema = ground arith;
}

by_origin-IsCarried :
    (metadata : JsonFields) (producer : Option EventProducer) (p : EventProducer)
    → is_marker metadata ≡ true
    → producer_by_origin metadata producer ≡ some p
    → (source : EventProducer) × (original_producer metadata ≡ some source)
      × IsCarried producer source p
unfolding producer_by_origin
by_origin-IsCarried metadata producer p m h = elim (Option-cases (original_producer metadata)) [
  | inl n ↦ absurd (ground (arith, m, n, h))
  | inr (source, e) ↦
      (source, e, with_extension-IsCarried producer source p (ground (arith, m, e, h)))
]

legacy_inv :
    (kind : Option LegacyCheckpointMarkerKind) (producer : Option EventProducer) (p : EventProducer)
    → legacy_producer kind producer ≡ some (some p)
    → (kind ≡ some ordinary) × (producer ≡ some p)
legacy_inv (some ordinary) producer p h = (refl, ground arith)
legacy_inv none producer p h = absurd (ground arith)
legacy_inv (some automatic_chat_repair) producer p h = absurd (ground arith)
legacy_inv (some agent_kv_enrichment) producer p h = absurd (ground arith)
legacy_inv (some version_restore) producer p h = absurd (ground arith)
legacy_inv (some ambiguous_special) producer p h = absurd (ground arith)

marker_producer_inv :
    (metadata : JsonFields) (producer : Option EventProducer) (p : EventProducer)
    → marker_producer metadata producer ≡ some (some p)
    → ((classify metadata ≡ some ordinary) × (producer ≡ some p))
      ⊎ ((source : EventProducer) × (parse_event_producer
              (field_at metadata (units "checkpointedProducer"))
            ≡ some source)
          × IsCarried producer source p)
unfolding marker_producer
marker_producer_inv metadata none p h = inl (
    legacy_inv (classify metadata) none p
      (elim (Option-cases
        (parse_event_producer (field_at metadata (units "checkpointedProducer")))) [
          | inl n ↦ ground (arith, n, h)
          | inr (source, e) ↦ ground (arith, e, h)
        ]))
marker_producer_inv metadata (some direct) p h =
    elim (Option-cases (parse_event_producer (field_at metadata (units "checkpointedProducer")))) [
      | inl n ↦ inl (legacy_inv (classify metadata) (some direct) p (ground (arith, n, h)))
      | inr (source, e) ↦
          inr (source, e, with_extension-IsCarried (some direct) source p (ground (arith, e, h)))
    ]

-- The producer that a checkpoint marker is judged by is that of an old ordinary marker itself; or
-- the marker's metadata names a producer, as the checkpointed or as the original one, whose editor
-- versions and data schema it has, with the extension's version of the marker's own producer.
pub effective_version_producer-IsCarried :
    (metadata : JsonFields) (producer : Option EventProducer) (p : EventProducer)
    → is_marker metadata ≡ true
    → effective_version_producer (some metadata) producer ≡ some p
    → ((classify metadata ≡ some ordinary) × (producer ≡ some p))
      ⊎ ((source : EventProducer) × ((parse_event_producer
                (field_at metadata (units "checkpointedProducer"))
              ≡ some source)
            ⊎ (original_producer metadata ≡ some source))
          × IsCarried producer source p)
unfolding effective_version_producer
effective_version_producer-IsCarried metadata producer p m h =
    elim (Option-cases (marker_producer metadata producer)) [
      | inl n ↦
          let (source, e, carried) =
            by_origin-IsCarried metadata producer p m (ground (arith, m, n, h)) in
          inr (source, inr e, carried)
      | inr (decided, e) ↦
          elim (marker_producer_inv metadata producer p (ground (arith, m, e, h))) [
            | inl old ↦ inl old
            | inr (source, q, carried) ↦ inr (source, inl q, carried)
          ]
    ]

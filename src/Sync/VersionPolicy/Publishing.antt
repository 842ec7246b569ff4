-- ===== src/Sync/VersionPolicy/Publishing.antt =====
-- src/sync/versionPolicy.ts: which local changes become an event, and with which parents.
use cursor_setting_sync.Base.{
  ℕ, Bool, true, false, ◌&&◌, not, Option, none, some, List, [], ◌∷◌, ◌++◌, map, leb, ltb, length,
  every, some_of, filter, if◌then◌else◌, ◌==◌, ◌!=◌, option_eq,
}
use cursor_setting_sync.Base.Texts.{Text, units, text_eq}
use cursor_setting_sync.Base.Maps.{Map, get, set}
use cursor_setting_sync.Base.Sort.{sort}
use cursor_setting_sync.Types.{
  ResourceKind, chat, chat_transcript, chat_store, workspace_storage, profile, extension,
  ResourceTip, LocalProjection, ResourceSnapshot, ResourceDeletion, JsonFields, put, operation_eq,
}
use cursor_setting_sync.Types.Json.{field_at, is_number, number_passes}
use cursor_setting_sync.Protocol.Canonical.{compare_code_units}
use cursor_setting_sync.Protocol.Reconciler.Reconcile.{ResourceProjection, parents_for_local_change}
use cursor_setting_sync.Sync.VersionPolicy.Provenance.{sync_origin, effective_sync_origin}

abbrev pub retains_written_form : ResourceKind → Bool
retains_written_form chat = true
retains_written_form chat_transcript = true
retains_written_form chat_store = true
retains_written_form workspace_storage = true
retains_written_form profile = true
retains_written_form extension = true
retains_written_form _ = false

abbrev pub is_retained : Option LocalProjection → Text → Bool
is_retained none semantic_hash = false
is_retained (some projection) semantic_hash =
    retains_written_form projection.kind && projection.retained_local_hash == some semantic_hash

abbrev pub holds : ResourceTip → Text → Bool
holds tip semantic_hash = tip.operation == put && tip.semantic_hash == semantic_hash

abbrev pub hash_of : Option LocalProjection → Option Text
hash_of none = none
hash_of (some projection) = some projection.semantic_hash

-- `shouldPublishSnapshot`.
unfoldable pub should_publish_snapshot :
    Option LocalProjection → ResourceSnapshot → List ResourceTip → Bool
should_publish_snapshot projection snapshot tips =
    if sync_origin snapshot.metadata == some (units "agent-kv-recapture")
    then not (
        some_of
          (λ tip.
            holds tip snapshot.semantic_hash
            && effective_sync_origin tip.metadata != some (units "automatic-chat-repair"))
          tips)
    else if is_retained projection snapshot.semantic_hash
    then false
    else if some_of (λ tip. holds tip snapshot.semantic_hash) tips
    then false
    else hash_of projection != some snapshot.semantic_hash

abbrev pub is_extension : ResourceKind → Bool
is_extension extension = true
is_extension _ = false

-- `extensionDeletionSupersedesKnownTips`.
unfoldable pub extension_deletion_supersedes :
    ResourceDeletion → Option LocalProjection → List ResourceTip → Bool
extension_deletion_supersedes deletion none tips = false
extension_deletion_supersedes deletion (some known) tips =
    is_extension deletion.kind
    && is_extension known.kind
    && ltb 0 (length tips)
    && every (λ tip. is_extension tip.kind && holds tip known.semantic_hash) tips

-- `parentsForLocalDeletion`.
unfoldable pub parents_for_local_deletion :
    ResourceDeletion → Option LocalProjection → List ResourceTip → List Text
parents_for_local_deletion deletion known tips =
    if extension_deletion_supersedes deletion known tips
    then sort compare_code_units (map (λ tip. tip.version_id) tips)
    else parents_for_local_change known tips

-- What `filterPublishableChanges` sorts out, with each refusal by the parts of its warning: the
-- resource, its size and the limit.
pub record Refusal : Type 0 where
  pub resource_id : Text
  pub byte_length : ℕ
  pub max_payload_bytes : ℕ

pub record Publishable : Type 0 where
  pub snapshots : List ResourceSnapshot
  pub deletions : List ResourceDeletion
  pub warnings : List Refusal
  pub warnings_by_source : Map Text (List Refusal)

abbrev pub refusal_of : ℕ → ResourceSnapshot → Refusal
refusal_of max_payload_bytes snapshot = record {
  resource_id = snapshot.resource_id;
  byte_length = length snapshot.content;
  max_payload_bytes = max_payload_bytes;
}

abbrev pub bucket_or_none : Option (List Refusal) → List Refusal
bucket_or_none none = []
bucket_or_none (some bucket) = bucket

-- One call of the filter's function.
unfoldable pub admit_snapshot :
    ℕ → (ResourceSnapshot → Text) → Publishable → ResourceSnapshot → Publishable
admit_snapshot max_payload_bytes source_of so_far snapshot =
    if leb (length snapshot.content) max_payload_bytes
    then record so_far { snapshots = so_far.snapshots ++ snapshot ∷ [] }
    else record so_far {
      warnings = so_far.warnings ++ refusal_of max_payload_bytes snapshot ∷ [];
      warnings_by_source = set so_far.warnings_by_source (source_of snapshot) (
          bucket_or_none (get so_far.warnings_by_source (source_of snapshot))
          ++ refusal_of max_payload_bytes snapshot ∷ []);
    }

unfoldable pub admit_snapshots :
    ℕ → (ResourceSnapshot → Text) → Publishable → List ResourceSnapshot → Publishable
admit_snapshots max_payload_bytes source_of so_far [] = so_far
admit_snapshots max_payload_bytes source_of so_far (snapshot ∷ rest) =
    admit_snapshots max_payload_bytes source_of
      (admit_snapshot max_payload_bytes source_of so_far snapshot) rest

-- `filterPublishableChanges`.
unfoldable pub filter_publishable_changes :
    List ResourceSnapshot → List ResourceDeletion → ℕ → (ResourceSnapshot → Text) → Publishable
filter_publishable_changes snapshots deletions max_payload_bytes source_of =
    admit_snapshots max_payload_bytes source_of
      (record { snapshots = []; deletions = deletions; warnings = []; warnings_by_source = [] })
      snapshots

abbrev pub is_chat : ResourceKind → Bool
is_chat chat = true
is_chat _ = false

abbrev pub is_true : Option Bool → Bool
is_true none = false
is_true (some b) = b

abbrev pub has_old_schema : Option JsonFields → Bool
has_old_schema none = false
has_old_schema (some metadata) =
    number_passes (is_number 1) (field_at metadata (units "chatSnapshotSchemaVersion"))

abbrev pub is_known : Option LocalProjection → Text → Bool
is_known none semantic_hash = false
is_known (some projection) semantic_hash =
    projection.semantic_hash == semantic_hash
    && not (is_true projection.requires_agent_kv_recapture)

-- `chatCoreObservationResourceIds`.
unfoldable pub chat_core_observation_resource_ids :
    List ResourceProjection → Map Text LocalProjection → List Text
chat_core_observation_resource_ids projections known =
    map (λ projection. projection.resource_id)
      (filter
        (λ projection.
          projection.changed
          && is_chat projection.tip.kind
          && projection.tip.operation == put
          && has_old_schema projection.tip.metadata
          && is_known (get known projection.resource_id) projection.tip.semantic_hash)
        projections)

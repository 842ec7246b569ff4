-- ===== src/Types.antt =====
-- src/types.ts: the data that the components share. Strings are `Text`; the numbers kept here are
-- whole and not negative. An optional field is an `Option`. The kind of a change and of a folded
-- resource is its text, since another build may have written one that this build does not know. A
-- checkpoint's version, always 1, is left out.
pub mod Kinds
pub mod Json
pub mod Printed
use cursor_setting_sync.Base.{ℕ, Option, List, Bool, true, false, ◌≡◌, ◌↔◌, refl, arith, StrictEq}
use cursor_setting_sync.Base.Texts.{Text}
use cursor_setting_sync.Base.Maps.{Map}

-- A number of a JSON text: a whole one by its sign and size, or another by its printed form.
pub data JsonNumber : Type 0 where
  whole : ℕ → JsonNumber
  negative : ℕ → JsonNumber
  fractional : Text → JsonNumber

mutual
  pub data JsonValue : Type 0 where
    null : JsonValue
    boolean : Bool → JsonValue
    number : JsonNumber → JsonValue
    string : Text → JsonValue
    array : JsonItems → JsonValue
    object : JsonFields → JsonValue

  pub data JsonItems : Type 0 where
    nil : JsonItems
    cons : JsonValue → JsonItems → JsonItems

  pub data JsonFields : Type 0 where
    end : JsonFields
    field : Text → JsonValue → JsonFields → JsonFields

-- `SUPPORTED_RESOURCE_KINDS`.
pub data ResourceKind : Type 0 where
  settings keybindings snippet task prompt mcp extension profile ui_state : ResourceKind
  cursor_user_file cursor_user_rules remote_targets chat chat_transcript : ResourceKind
  chat_store workspace_storage : ResourceKind

pub data ResourceOperation : Type 0 where
  put delete : ResourceOperation

abbrev pub operation_beq : ResourceOperation → ResourceOperation → Bool
operation_beq put put = true
operation_beq put delete = false
operation_beq delete put = false
operation_beq delete delete = true

pub operation_beq_iff : (a b : ResourceOperation) → (operation_beq a b ≡ true) ↔ (a ≡ b)
operation_beq_iff a b = (λ h. ground arith, λ h. ground arith)

instance abbrev pub operation_eq : StrictEq ResourceOperation
operation_eq = record { equals = operation_beq; equals_iff = operation_beq_iff }

pub record ObjectReference : Type 0 where
  pub device_id : Text
  pub object_id : Text
  pub compressed_bytes : ℕ
  pub plain_bytes : ℕ

pub record EventProducer : Type 0 where
  pub extension_version : Text
  pub cursor_version : Text
  pub vscode_version : Text
  pub cursor_data_schema : Option Text

pub record ResourceChange : Type 0 where
  pub resource_id : Text
  pub kind : Text
  pub operation : ResourceOperation
  pub parents : List Text
  pub semantic_hash : Text
  pub payload : Option ObjectReference
  pub metadata : Option JsonFields

pub record EventManifest : Type 0 where
  pub event_version : ℕ
  pub created_at : Text
  pub lamport : ℕ
  pub producer : Option EventProducer
  pub changes : List ResourceChange

pub record EventHeader : Type 0 where
  pub protocol_version : ℕ
  pub envelope_version : ℕ
  pub repository_id : Text
  pub device_id : Text
  pub sequence : ℕ
  pub previous_event_hash : Option Text

pub record StoredEvent : Type 0 where
  pub header : EventHeader
  pub nonce : Text
  pub ciphertext : Text
  pub tag : Text

-- `DecryptedEvent` of src/protocol/repository.ts.
pub record DecryptedEvent : Type 0 where
  pub path : Text
  pub file_name : Text
  pub event_hash : Text
  pub stored : StoredEvent
  pub manifest : EventManifest

pub record StreamCursor : Type 0 where
  pub last_sequence : ℕ
  pub last_event_hash : Option Text

pub record CheckpointResource : Type 0 where
  pub resource_id : Text
  pub kind : Text
  pub operation : ResourceOperation
  pub semantic_hash : Text
  pub version_id : Text
  pub lamport : ℕ
  pub device_id : Text
  pub payload : Option ObjectReference
  pub metadata : Option JsonFields
  pub producer : Option EventProducer

pub record CheckpointManifest : Type 0 where
  pub created_at : Text
  pub device_id : Text
  pub lamport : ℕ
  pub predecessor_hash : Option Text
  pub streams : Map Text StreamCursor
  pub resources : List CheckpointResource

pub record ResourceTip : Type 0 where
  pub version_id : Text
  pub event_hash : Text
  pub change_index : Option ℕ
  pub kind : ResourceKind
  pub lamport : ℕ
  pub created_at : Option Text
  pub device_id : Text
  pub operation : ResourceOperation
  pub semantic_hash : Text
  pub payload : Option ObjectReference
  pub parents : List Text
  pub producer : Option EventProducer
  pub metadata : Option JsonFields

pub record LocalProjection : Type 0 where
  pub resource_id : Text
  pub kind : ResourceKind
  pub semantic_hash : Text
  pub version_id : Option Text
  pub payload_object_id : Option Text
  pub retained_local_hash : Option Text
  pub source_timestamp : Option ℕ
  pub source_file_size : Option ℕ
  pub source_file_ctime_ms : Option ℕ
  pub source_bubble_count : Option ℕ
  pub source_chat_core_hash : Option Text
  pub source_header_fingerprint : Option Text
  pub requires_agent_kv_recapture : Option Bool

pub record SyncConflict : Type 0 where
  pub conflict_id : Text
  pub resource_id : Text
  pub kind : ResourceKind
  pub base_version_id : Option Text
  pub tip_version_ids : List Text
  pub created_at : Text
  pub resolved_at : Option Text

pub record PendingDatabaseChange : Type 0 where
  pub event_hash : Text
  pub change_index : ℕ
  pub resource_id : Text
  pub kind : ResourceKind
  pub blocked_reason : Option Text
  pub compatibility_target_fingerprint : Option Text

pub record DeviceIdentity : Type 0 where
  pub device_id : Text
  pub name : Text
  pub created_at : Text

pub record AbsorbedCheckpoint : Type 0 where
  pub hash : Text
  pub lamport : ℕ
  pub streams : Map Text StreamCursor

pub record LocalSyncState : Type 0 where
  pub version : ℕ
  pub repository_id : Text
  pub device : DeviceIdentity
  pub next_sequence : ℕ
  pub lamport : ℕ
  pub own_stream_head : Option Text
  pub streams : Map Text StreamCursor
  pub checkpoint : Option AbsorbedCheckpoint
  pub tips : Map Text (List ResourceTip)
  pub projections : Map Text LocalProjection
  pub conflicts : List SyncConflict
  pub pending_database_changes : List PendingDatabaseChange
  pub retired_devices : List Text
  pub last_sync_at : Option Text
  pub last_error : Option Text

pub record ResourceSnapshot : Type 0 where
  pub resource_id : Text
  pub kind : ResourceKind
  pub content : List ℕ
  pub semantic_hash : Text
  pub metadata : Option JsonFields
  pub parents : Option (List Text)

-- `content?: never` is left out.
pub record ResourceDeletion : Type 0 where
  pub resource_id : Text
  pub kind : ResourceKind
  pub semantic_hash : Text
  pub metadata : Option JsonFields
  pub parents : Option (List Text)

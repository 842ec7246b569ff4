-- ===== src/Protocol/Repository/Validation.antt =====
-- src/protocol/repository.ts: the validation of what was decrypted, on values of the types that the
-- source gives them; a value of another type is left out, and so is the test of an object's keys. A
-- test that throws gives its error, and `none` is a validation that returns.
use cursor_setting_sync.Base.{
  ℕ, ◌+◌, ◌*◌, ◌-◌, ◌^◌, Bool, false, ◌&&◌, ◌||◌, not, Option, none, some, List, [], ◌∷◌, ◌++◌, leb,
  ltb, nat_beq, length, some_of, if◌then◌else◌, ◌!=◌, nat_eq,
}
use cursor_setting_sync.Base.Texts.{Text, text_eq, text_lt, starts_with}
use cursor_setting_sync.Base.Sets.{has, distinct_from}
use cursor_setting_sync.Types.{
  ObjectReference, EventProducer, ResourceChange, EventManifest, EventHeader, CheckpointManifest,
  CheckpointResource, StreamCursor, ResourceOperation, put, delete,
}
use cursor_setting_sync.Sync.VersionPolicy.Batches.{max_event_changes}
use cursor_setting_sync.Protocol.Repository.Identifiers.{
  is_sha256, is_version_id, is_kind_text, is_safe_identifier,
}

abbrev pub protocol_version : ℕ
protocol_version = 1

abbrev pub checkpointed_event_protocol_version : ℕ
checkpointed_event_protocol_version = 2

abbrev pub event_envelope_version : ℕ
event_envelope_version = 1

abbrev pub max_parents_per_change : ℕ
max_parents_per_change = 256

-- What is thrown, without its text.
pub data Rejection : Type 0 where
  bad_version bad_lamport bad_changes bad_date bad_producer bad_change bad_parents : Rejection
  duplicate_parents no_payload unexpected_payload bad_reference bad_identifier : Rejection
  foreign_repository bad_previous_hash bad_sequence header_mismatch bad_predecessor : Rejection
  bad_cursor unsorted_resources bad_resource : Rejection

-- A test that throws, and what follows it.
infix 2 throw◌when◌else◌
abbrev pub throw◌when◌else◌ : Rejection → Bool → Option Rejection → Option Rejection
throw rejection when failed else next = if failed then some rejection else next

-- One validation after another.
abbrev pub and_then : Option Rejection → Option Rejection → Option Rejection
and_then none next = next
and_then (some rejection) next = some rejection

unfoldable pub each : {A : Type 0} → (A → Option Rejection) → List A → Option Rejection
each validate [] = none
each validate (x ∷ xs) = let rest = each validate xs in and_then (validate x) rest

-- `!Number.isSafeInteger(n) || n < 1`.
abbrev pub is_not_positive : ℕ → Bool
is_not_positive n = not (leb n (2 ^ 53 - 1)) || ltb n 1

abbrev pub assert_safe_identifier : Text → Option Rejection
assert_safe_identifier value = throw bad_identifier when not (is_safe_identifier value) else none

unfoldable pub validate_object_reference : ObjectReference → ℕ → Option Rejection
validate_object_reference reference max_payload_bytes =
    and_then (assert_safe_identifier reference.device_id) (
      throw bad_reference
      when not (is_sha256 reference.object_id)
        || not (leb reference.compressed_bytes (2 ^ 53 - 1))
        || ltb (max_payload_bytes + 1024 * 1024) reference.compressed_bytes
        || not (leb reference.plain_bytes (2 ^ 53 - 1))
        || ltb max_payload_bytes reference.plain_bytes
      else none)

-- `isBoundedVersion`.
abbrev pub is_bounded_version : Text → Bool
is_bounded_version value = ltb 0 (length value) && leb (length value) 128

abbrev pub is_too_long_schema : Option Text → Bool
is_too_long_schema none = false
is_too_long_schema (some schema) = ltb (128 * 1024) (length schema)

unfoldable pub validate_event_producer : EventProducer → Option Rejection
validate_event_producer producer =
    throw bad_producer
    when not (is_bounded_version producer.extension_version)
      || not (is_bounded_version producer.cursor_version)
      || not (is_bounded_version producer.vscode_version)
      || is_too_long_schema producer.cursor_data_schema
    else none

-- The tests of `resourceId` and `kind` that changes and folded resources share.
abbrev pub is_bad_name : Text → Text → Bool
is_bad_name resource_id kind =
    nat_beq (length resource_id) 0
    || ltb 4096 (length resource_id)
    || has 0 resource_id
    || ltb 64 (length kind)
    || not (is_kind_text kind)
    || not (starts_with resource_id (kind ++ b'/' ∷ []))

-- The tests of the payload, by the operation.
abbrev pub validate_payload : ResourceOperation → Option ObjectReference → ℕ → Option Rejection
validate_payload put none max_payload_bytes = some no_payload
validate_payload put (some payload) max_payload_bytes =
    validate_object_reference payload max_payload_bytes
validate_payload delete none max_payload_bytes = none
validate_payload delete (some payload) max_payload_bytes = some unexpected_payload

unfoldable pub validate_resource_change : ResourceChange → ℕ → Option Rejection
validate_resource_change change max_payload_bytes =
    throw bad_change
    when is_bad_name change.resource_id change.kind || not (is_sha256 change.semantic_hash)
    else throw bad_parents
    when ltb max_parents_per_change (length change.parents)
      || some_of (λ parent. not (is_version_id parent)) change.parents
    else throw duplicate_parents
    when not (nat_beq (length (distinct_from [] change.parents)) (length change.parents))
    else validate_payload change.operation change.payload max_payload_bytes

abbrev pub validate_producer : Option EventProducer → Option Rejection
validate_producer none = none
validate_producer (some producer) = validate_event_producer producer

-- `isValidStreamCursor`.
abbrev pub is_valid_stream_cursor : StreamCursor → Bool
is_valid_stream_cursor cursor =
    not (is_not_positive cursor.last_sequence)
    && elim cursor.last_event_hash [ none ↦ false | some hash ↦ is_sha256 hash ]

abbrev pub validate_stream : Text × StreamCursor → Option Rejection
validate_stream (device_id, cursor) =
    and_then (assert_safe_identifier device_id)
      (throw bad_cursor when not (is_valid_stream_cursor cursor) else none)

unfoldable pub validate_checkpoint_resource : CheckpointResource → ℕ → Option Rejection
validate_checkpoint_resource resource max_payload_bytes =
    throw bad_resource
    when is_bad_name resource.resource_id resource.kind
      || not (is_sha256 resource.semantic_hash)
      || not (is_version_id resource.version_id)
      || is_not_positive resource.lamport
    else and_then (assert_safe_identifier resource.device_id) (
        and_then (validate_payload resource.operation resource.payload max_payload_bytes)
          (validate_producer resource.producer))

abbrev pub is_unsorted : Option Text → Text → Bool
is_unsorted none resource_id = false
is_unsorted (some previous) resource_id = not (text_lt previous resource_id)

-- The loop over the resources, with the identifier before.
unfoldable pub validate_resources : Option Text → List CheckpointResource → ℕ → Option Rejection
validate_resources previous [] max_payload_bytes = none
validate_resources previous (resource ∷ resources) max_payload_bytes =
    let rest = validate_resources (some resource.resource_id) resources max_payload_bytes in
    and_then (validate_checkpoint_resource resource max_payload_bytes)
      (throw unsorted_resources when is_unsorted previous resource.resource_id else rest)

abbrev pub is_no_hash : Option Text → Bool
is_no_hash none = false
is_no_hash (some hash) = not (is_sha256 hash)

module _ (is_date : Text → Bool) where
  -- `validateEventManifest`; `is_date` is whether `Date.parse` gives a finite number.
  unfoldable pub validate_event_manifest : EventManifest → ℕ → Option Rejection
  validate_event_manifest manifest max_payload_bytes =
      throw bad_version
      when not (nat_beq manifest.event_version event_envelope_version)
      else throw bad_lamport
      when is_not_positive manifest.lamport
      else throw bad_changes
      when nat_beq (length manifest.changes) 0 || ltb max_event_changes (length manifest.changes)
      else throw bad_date
      when not (is_date manifest.created_at)
      else and_then (validate_producer manifest.producer)
          (each (λ change. validate_resource_change change max_payload_bytes) manifest.changes)

  -- `validateCheckpointManifest`, with the device and the Lamport value of the header.
  unfoldable pub validate_checkpoint_manifest : CheckpointManifest → Text → ℕ → ℕ → Option Rejection
  validate_checkpoint_manifest manifest device_id lamport max_payload_bytes =
      throw bad_date
      when not (is_date manifest.created_at)
      else throw header_mismatch
      when manifest.device_id != device_id || not (nat_beq manifest.lamport lamport)
      else throw bad_predecessor
      when is_no_hash manifest.predecessor_hash
      else and_then (each validate_stream manifest.streams)
          (validate_resources none manifest.resources max_payload_bytes)

-- `validateEventHeader`.
unfoldable pub validate_event_header : EventHeader → Text → Option Rejection
validate_event_header header repository_id =
    throw bad_version
    when (not (nat_beq header.protocol_version protocol_version)
        && not (nat_beq header.protocol_version checkpointed_event_protocol_version))
      || not (nat_beq header.envelope_version event_envelope_version)
    else throw foreign_repository
    when header.repository_id != repository_id
    else and_then (assert_safe_identifier header.device_id) (
        throw bad_previous_hash
        when elim header.previous_event_hash [ none ↦ false | some hash ↦ not (is_sha256 hash) ]
        else throw bad_sequence
        when is_not_positive header.sequence
        else none)

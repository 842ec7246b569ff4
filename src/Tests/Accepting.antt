-- ===== src/Tests/Accepting.antt =====
-- src/protocol/repository.ts: the theorems at one device's manifests.
use cursor_setting_sync.Base.{
  ℕ, ◌≤◌, ◌<◌, ◌≡◌, ◌≢◌, refl, ◌↔◌, ◌⊎◌, true, false, none, some, [], ◌∷◌, ◌++◌, In, length, every,
  some_of, list_beq, not, List, filter,
}
use cursor_setting_sync.Base.Texts.{Text, text_eq, units, text_lt, starts_with}
use cursor_setting_sync.Base.Maps.{get, set}
use cursor_setting_sync.Base.Sets.{has, add, distinct_from, Distinct}
use cursor_setting_sync.Base.Sort.{sort, insert}
use cursor_setting_sync.Protocol.Canonical.{compare_code_units}
use cursor_setting_sync.Types.{
  ResourceChange, EventManifest, CheckpointManifest, CheckpointResource, StreamCursor,
  DecryptedEvent, delete,
}
use cursor_setting_sync.Protocol.VersionId.{version_id, decimal, digits}
use cursor_setting_sync.Protocol.Reconciler.Order.{choose_active_tip}
use cursor_setting_sync.Protocol.Repository.Checkpoints.{
  choose_checkpoint_tip, choose_checkpoint_tip-active,
}
use cursor_setting_sync.Protocol.Repository.Allowlist.{
  by_hash, by_hash_from, follow, follow_streams, history_event_hash_allowlist, OnChain,
}
use cursor_setting_sync.Protocol.Repository.Allowlist.Chains.{history_event_hash_allowlist-OnChain}
use cursor_setting_sync.Protocol.Repository.Inspections.{
  rotate_checkpoint_inspections, rotate_checkpoint_inspections_lem, find_index, by_resource_id,
  is_after,
}
use cursor_setting_sync.Protocol.Repository.Identifiers.{
  is_sha256, is_version_id, is_kind_text, is_kind_rest, is_safe_identifier,
  is_safe_portable_path_segment, last_unit, stem, version_id-accepted, is_safe_identifier-IsPlain,
  IsPlain,
}
use cursor_setting_sync.Protocol.Repository.Validation.{
  each, validate_resource_change, validate_event_manifest, validate_checkpoint_resource,
  validate_resources, validate_checkpoint_manifest, duplicate_parents,
}
use cursor_setting_sync.Protocol.Repository.Accepted.{
  IsSound, validate_event_manifest-IsSound, Ascends, ids, validate_checkpoint_manifest-Ascends,
}
use cursor_setting_sync.Sync.VersionPolicy.Batches.{max_event_changes}
use cursor_setting_sync.Tests.Data.{base, edit_here, edit_there}

abbrev sha : Text
sha = units "00112233445566778899aabbccddeeff00112233445566778899aabbccddeeff"

sha-is_sha256 : is_sha256 sha ≡ true
unfolding is_sha256 every
sha-is_sha256 = refl

-- The tenth change of the event.
version_id-accepted_example : is_version_id (version_id sha 9) ≡ true
version_id-accepted_example = version_id-accepted sha 9 sha-is_sha256

device : Text
device = units "pc-1"

device_accepted : is_safe_identifier device ≡ true
unfolding device is_safe_identifier is_safe_portable_path_segment last_unit stem every has list_beq
device_accepted = refl

-- A name that Windows keeps for itself.
console_refused : is_safe_identifier (units "con.txt") ≡ false
unfolding is_safe_identifier is_safe_portable_path_segment last_unit stem every has list_beq
console_refused = refl

is_safe_identifier-IsPlain_example :
    (length device ≤ 128) × ((c : ℕ) → In c device → IsPlain c) × (last_unit device ≢ some b'.')
is_safe_identifier-IsPlain_example = is_safe_identifier-IsPlain device device_accepted

abbrev change : ResourceChange
change = record {
  resource_id = units "cursor-user-file/a.md";
  kind = units "cursor-user-file";
  operation = delete;
  parents = version_id sha 0 ∷ version_id sha 1 ∷ [];
  semantic_hash = sha;
  payload = none;
  metadata = none;
}

abbrev manifest : EventManifest
manifest = record {
  event_version = 1;
  created_at = units "2024";
  lamport = 7;
  producer = none;
  changes = change ∷ [];
}

manifest_accepted : validate_event_manifest (λ date. true) manifest 1000 ≡ none
unfolding validate_event_manifest validate_resource_change each is_sha256 is_version_id is_kind_text
    is_kind_rest every some_of has add distinct_from list_beq starts_with version_id decimal digits
manifest_accepted = refl

-- The same parent twice.
duplicate_refused :
    validate_resource_change
      (record change { parents = version_id sha 0 ∷ version_id sha 0 ∷ [] })
      1000
    ≡ some duplicate_parents
unfolding validate_resource_change each is_sha256 is_version_id is_kind_text is_kind_rest every
    some_of has add distinct_from list_beq starts_with version_id decimal digits
duplicate_refused = refl

validate_event_manifest-IsSound_example :
    (0 < length manifest.changes)
    × (length manifest.changes ≤ max_event_changes)
    × (0 < manifest.lamport)
    × ((change : ResourceChange) → In change manifest.changes → IsSound change 1000)
validate_event_manifest-IsSound_example =
    validate_event_manifest-IsSound (λ date. true) manifest 1000 manifest_accepted

abbrev folded : Text → CheckpointResource
folded name = record {
  resource_id = units "snippet/" ++ name;
  kind = units "snippet";
  operation = delete;
  semantic_hash = sha;
  version_id = version_id sha 0;
  lamport = 3;
  device_id = units "pc-1";
  payload = none;
  metadata = none;
  producer = none;
}

abbrev checkpoint : CheckpointManifest
checkpoint = record {
  created_at = units "2024";
  device_id = units "pc-1";
  lamport = 3;
  predecessor_hash = none;
  streams = (units "pc-1", record { last_sequence = 1; last_event_hash = some sha }) ∷ [];
  resources = folded (units "a") ∷ folded (units "b") ∷ [];
}

checkpoint_accepted :
    validate_checkpoint_manifest (λ date. true) checkpoint (units "pc-1") 3 1000 ≡ none
unfolding validate_checkpoint_manifest validate_resources validate_checkpoint_resource each
    is_sha256 is_version_id is_kind_text is_kind_rest every has list_beq starts_with version_id
    decimal digits text_lt is_safe_identifier is_safe_portable_path_segment last_unit stem
checkpoint_accepted = refl

validate_checkpoint_manifest-Ascends_example :
    (checkpoint.device_id ≡ units "pc-1")
    × (checkpoint.lamport ≡ 3)
    × Ascends (ids checkpoint.resources)
    × Distinct (ids checkpoint.resources)
    × ((r : CheckpointResource) → In r checkpoint.resources → is_version_id r.version_id ≡ true)
validate_checkpoint_manifest-Ascends_example =
    validate_checkpoint_manifest-Ascends (λ date. true) checkpoint (units "pc-1") 3 1000
      checkpoint_accepted

choose_checkpoint_tip-active_example :
    choose_checkpoint_tip (base ∷ edit_here ∷ edit_there ∷ [])
    ≡ choose_active_tip (base ∷ edit_here ∷ edit_there ∷ [])
choose_checkpoint_tip-active_example =
    choose_checkpoint_tip-active (base ∷ edit_here ∷ edit_there ∷ [])

abbrev event : DecryptedEvent
event = record {
  path = [];
  file_name = [];
  event_hash = sha;
  stored = record {
    header = record {
      protocol_version = 1;
      envelope_version = 1;
      repository_id = units "r";
      device_id = units "pc-1";
      sequence = 1;
      previous_event_hash = none;
    };
    nonce = [];
    ciphertext = [];
    tag = [];
  };
  manifest = manifest;
}

allowed : history_event_hash_allowlist (event ∷ []) [] (some checkpoint) ≡ sha ∷ []
unfolding history_event_hash_allowlist follow_streams follow by_hash_from get set has add list_beq
allowed = refl

history_event_hash_allowlist-OnChain_example :
    In sha (history_event_hash_allowlist (event ∷ []) [] (some checkpoint)) ↔ (
      In sha []
      ⊎ ((device : Text) × (cursor : StreamCursor) × In (device, cursor) checkpoint.streams
          × OnChain (by_hash (event ∷ [])) device cursor.last_event_hash cursor.last_sequence sha))
history_event_hash_allowlist-OnChain_example =
    history_event_hash_allowlist-OnChain (event ∷ []) [] checkpoint sha

abbrev inspected : List Text
inspected = units "c" ∷ units "a" ∷ units "b" ∷ []

abbrev own_id : Text → Text
own_id id = id

goes_on_after_a :
    rotate_checkpoint_inspections own_id inspected (some (units "a"))
    ≡ units "b" ∷ units "c" ∷ units "a" ∷ []
unfolding rotate_checkpoint_inspections find_index sort insert compare_code_units list_beq text_lt
goes_on_after_a = refl

rotate_checkpoint_inspections_lem_example :
    rotate_checkpoint_inspections own_id inspected (some (units "a"))
    ≡ filter (is_after own_id (units "a")) (sort (by_resource_id own_id) inspected)
      ++ filter (λ y. not (is_after own_id (units "a") y)) (sort (by_resource_id own_id) inspected)
rotate_checkpoint_inspections_lem_example =
    rotate_checkpoint_inspections_lem own_id (units "a") inspected

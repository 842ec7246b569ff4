-- ===== src/Protocol/Repository/Checkpoints.antt =====
-- src/protocol/repository.ts: the orders of checkpoints and versions, and the tip that a checkpoint
-- folds.
use cursor_setting_sync.Base.{
  ℕ, ◌≡◌, refl, Bool, true, Option, none, some, List, [], ◌∷◌, ltb, nat_beq, length, head?, filter,
  if◌then◌else◌, ◌==◌, compare, Ordering, arith,
}
use cursor_setting_sync.Base.Texts.{Text, text_eq}
use cursor_setting_sync.Base.Maps.{Map, get}
use cursor_setting_sync.Base.Sort.{sort, insert}
use cursor_setting_sync.Types.{
  ResourceTip, ResourceKind, CheckpointResource, DecryptedEvent, StreamCursor, put, operation_eq,
}
use cursor_setting_sync.Protocol.Canonical.{compare_code_units}
use cursor_setting_sync.Protocol.VersionId.{before_hash, after_hash, to_number}
use cursor_setting_sync.Protocol.Reconciler.Graph.{folded_tip}
use cursor_setting_sync.Protocol.Reconciler.Order.{compare_tips, candidates, choose_active_tip}

abbrev pub then_by : Ordering → Ordering → Ordering
then_by Ordering.lt next = Ordering.lt
then_by Ordering.eq next = next
then_by Ordering.gt next = Ordering.gt

-- `compareDecryptedEvents`, by the sign of its number.
unfoldable pub compare_decrypted_events : DecryptedEvent → DecryptedEvent → Ordering
compare_decrypted_events left right =
    then_by (compare_code_units left.stored.header.device_id right.stored.header.device_id)
      (compare left.stored.header.sequence right.stored.header.sequence)

-- `isEventAfterStreams`.
unfoldable pub is_event_after_streams : DecryptedEvent → Map Text StreamCursor → Bool
is_event_after_streams event streams = elim (get streams event.stored.header.device_id) [
  | none ↦ true
  | some cursor ↦ ltb cursor.last_sequence event.stored.header.sequence
]

pub record CheckpointIdentity : Type 0 where
  pub hash : Text
  pub lamport : ℕ

unfoldable pub compare_checkpoint_identity : CheckpointIdentity → CheckpointIdentity → Ordering
compare_checkpoint_identity left right =
    if nat_beq left.lamport right.lamport
    then compare_code_units left.hash right.hash
    else compare left.lamport right.lamport

-- `compareCheckpointTips`.
unfoldable pub compare_checkpoint_tips : ResourceTip → ResourceTip → Ordering
compare_checkpoint_tips left right =
    if nat_beq left.lamport right.lamport
    then then_by (compare_code_units right.device_id left.device_id)
        (compare_code_units right.event_hash left.event_hash)
    else compare right.lamport left.lamport

-- `chooseCheckpointTip`.
unfoldable pub choose_checkpoint_tip : List ResourceTip → Option ResourceTip
choose_checkpoint_tip [] = none
choose_checkpoint_tip (first ∷ tips) =
    let updates = filter (λ tip. tip.operation == put) (first ∷ tips) in
    head? (sort compare_checkpoint_tips (if ltb 0 (length updates) then updates else first ∷ tips))

-- `checkpointResourceTip`; the kind is one that this build knows.
unfoldable pub checkpoint_resource_tip : CheckpointResource → ResourceKind → ResourceTip
checkpoint_resource_tip resource kind = record {
  version_id = resource.version_id;
  event_hash = before_hash resource.version_id;
  change_index = to_number (after_hash resource.version_id);
  kind = kind;
  lamport = resource.lamport;
  created_at = none;
  device_id = resource.device_id;
  operation = resource.operation;
  semantic_hash = resource.semantic_hash;
  payload = resource.payload;
  parents = [];
  producer = resource.producer;
  metadata = resource.metadata;
}

compare_checkpoint_tips-same : (a b : ResourceTip) → compare_checkpoint_tips a b ≡ compare_tips a b
unfolding compare_checkpoint_tips compare_tips
compare_checkpoint_tips-same a b = ground arith

insert-same :
    (x : ResourceTip) (ys : List ResourceTip)
    → insert compare_checkpoint_tips x ys ≡ insert compare_tips x ys
unfolding insert
insert-same x [] = refl
insert-same x (y ∷ ys) = rw (compare_checkpoint_tips-same x y, insert-same x ys) refl

sort-same : (tips : List ResourceTip) → sort compare_checkpoint_tips tips ≡ sort compare_tips tips
unfolding sort
sort-same [] = refl
sort-same (x ∷ xs) = rw (sort-same xs) (insert-same x (sort compare_tips xs))

-- The tip that a checkpoint folds is the one that the reconciler elects, whatever the tips are.
pub choose_checkpoint_tip-active :
    (tips : List ResourceTip) → choose_checkpoint_tip tips ≡ choose_active_tip tips
unfolding choose_checkpoint_tip choose_active_tip candidates
choose_checkpoint_tip-active [] = refl
choose_checkpoint_tip-active (x ∷ tips) = rw sort-same (ground arith)

-- A folded resource is read as the same tip by the checkpoint and by the reconciler.
checkpoint_resource_tip-folded :
    (resource : CheckpointResource) (kind : ResourceKind)
    → checkpoint_resource_tip resource kind ≡ folded_tip resource kind
unfolding checkpoint_resource_tip folded_tip
checkpoint_resource_tip-folded resource kind = refl

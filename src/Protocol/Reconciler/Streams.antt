-- ===== src/Protocol/Reconciler/Streams.antt =====
-- src/protocol/reconciler.ts, `acceptContiguousStreams`: the events of each device up to the first gap
-- or fork, and the refusal of a repository that has lost or changed what was accepted before.
use cursor_setting_sync.Base.{
  ℕ, ◌+◌, ◌-◌, ◌^◌, Bool, true, false, ◌&&◌, ◌||◌, not, Option, none, some, List, [], ◌∷◌, ◌++◌,
  ltb, leb, nat_beq, length, every, if◌then◌else◌, ◌!=◌, option_eq, compare, Ordering,
}
use cursor_setting_sync.Base.Texts.{Text, text_eq}
use cursor_setting_sync.Base.Maps.{Map, get, set}
use cursor_setting_sync.Base.Sets.{has}
use cursor_setting_sync.Base.Sort.{sort}
use cursor_setting_sync.Types.{DecryptedEvent, StreamCursor, CheckpointManifest, LocalSyncState}
use cursor_setting_sync.Protocol.Canonical.{compare_code_units}

-- What `streamRollbackError` says in `detail`, by its number.
pub data Rollback : Type 0 where
  no_longer_visible missing chain_changed different_hash ended_before : ℕ → Rollback

pub data StreamError : Type 0 where
  invalid_cursor : Text → StreamError
  rollback : Text → Rollback → StreamError

-- A warning by the parts that its text shows.
pub data StreamWarning : Type 0 where
  waiting : Text → ℕ → ℕ → StreamWarning
  forked : Text → ℕ → StreamWarning

pub data Result {ℓ} (A : Type ℓ) : Type ℓ where
  ok : A → Result A
  err : StreamError → Result A

infixl 5 ◌>>=◌
abbrev pub ◌>>=◌ {ℓ κ} : {A : Type ℓ} {B : Type κ} → Result A → (A → Result B) → Result B
ok a >>= f = f a
err e >>= f = err e

abbrev pub device_of : DecryptedEvent → Text
device_of event = event.stored.header.device_id

abbrev pub sequence_of : DecryptedEvent → ℕ
sequence_of event = event.stored.header.sequence

-- `checkpoint?.streams[deviceId]`.
unfoldable pub checkpoint_cursor : Option CheckpointManifest → Text → Option StreamCursor
checkpoint_cursor none device = none
checkpoint_cursor (some checkpoint) device = get checkpoint.streams device

-- `cursor !== undefined && sequence <= cursor.lastSequence`.
abbrev pub covers : Option StreamCursor → ℕ → Bool
covers none sequence = false
covers (some cursor) sequence = leb sequence cursor.last_sequence

-- The two `continue`s: folded into the checkpoint, or of a retired device and past its cursor.
unfoldable pub is_skipped : LocalSyncState → Option CheckpointManifest → DecryptedEvent → Bool
is_skipped state checkpoint event =
    if covers (checkpoint_cursor checkpoint (device_of event)) (sequence_of event)
    then true
    else has (device_of event) state.retired_devices
      && not (covers (get state.streams (device_of event)) (sequence_of event))

abbrev pub Groups : Type 0
Groups = Map Text (List DecryptedEvent)

abbrev pub or_none : Option (List DecryptedEvent) → List DecryptedEvent
or_none none = []
or_none (some events) = events

-- `byDevice.get(deviceId) ?? []`, with the event pushed and the list set.
unfoldable pub push_event : Groups → DecryptedEvent → Groups
push_event groups event =
    set groups (device_of event) (or_none (get groups (device_of event)) ++ event ∷ [])

unfoldable pub group_events :
    LocalSyncState → Option CheckpointManifest → Groups → List DecryptedEvent → Groups
group_events state checkpoint groups [] = groups
group_events state checkpoint groups (event ∷ rest) =
    group_events state checkpoint
      (if is_skipped state checkpoint event then groups else push_event groups event) rest

unfoldable pub is_hex : ℕ → Bool
is_hex c = (leb b'a' c && leb c b'f') || (leb b'0' c && leb c b'9')

-- `/^[a-f0-9]{64}$/`.
unfoldable pub is_hash : Text → Bool
unfolding is_hex
is_hash text = nat_beq (length text) 64 && every is_hex text

abbrev pub is_hash_or_null : Option Text → Bool
is_hash_or_null none = false
is_hash_or_null (some text) = is_hash text

-- `validatePinnedStreamCursor`: a safe integer from 1, and a hash.
unfoldable pub is_valid_cursor : StreamCursor → Bool
is_valid_cursor cursor =
    leb cursor.last_sequence (2 ^ 53 - 1)
    && leb 1 cursor.last_sequence
    && is_hash_or_null cursor.last_event_hash

-- One round of the loop over the pinned streams.
unfoldable pub check_pinned_stream :
    Option CheckpointManifest → Groups → Text → StreamCursor → Result (Unit {0})
check_pinned_stream checkpoint groups device cursor =
    if not (is_valid_cursor cursor) then err (invalid_cursor device) else elim (get groups device) [
      | some _ ↦ ok tt
      | none ↦
          if covers (checkpoint_cursor checkpoint device) cursor.last_sequence
          then ok tt
          else err (rollback device (no_longer_visible cursor.last_sequence))
    ]

unfoldable pub check_pinned :
    Option CheckpointManifest → Groups → Map Text StreamCursor → Result (Unit {0})
check_pinned checkpoint groups [] = ok tt
check_pinned checkpoint groups ((device, cursor) ∷ streams) =
    let rest = check_pinned checkpoint groups streams in
    check_pinned_stream checkpoint groups device cursor >>= λ _. rest

-- The order in which a device's events are read.
unfoldable pub compare_events : DecryptedEvent → DecryptedEvent → Ordering
compare_events left right = elim (compare (sequence_of left) (sequence_of right)) [
  | Ordering.eq ↦ compare_code_units left.event_hash right.event_hash
  | Ordering.lt ↦ Ordering.lt
  | Ordering.gt ↦ Ordering.gt
]

-- What one device's loop leaves: the events that it accepts, its warning, the next sequence.
pub record Run : Type 0 where
  pub accepted : List DecryptedEvent
  pub warnings : List StreamWarning
  pub expected : ℕ

-- `sequence === pinned.lastSequence && eventHash !== pinned.lastEventHash`.
abbrev pub contradicts : Option StreamCursor → DecryptedEvent → Bool
contradicts none event = false
contradicts (some pinned) event =
    nat_beq (sequence_of event) pinned.last_sequence
    && some event.event_hash != pinned.last_event_hash

-- The loop over one device's events, with `expectedSequence` and `previousHash`.
unfoldable pub accept_run :
    Option StreamCursor → Text → List DecryptedEvent → ℕ → Option Text → Result Run
accept_run pinned device [] expected previous =
    ok (record { accepted = []; warnings = []; expected = expected })
accept_run pinned device (event ∷ events) expected previous =
    let rest = accept_run pinned device events (expected + 1) (some event.event_hash) in
    if not (nat_beq (sequence_of event) expected)
    then (if covers pinned expected
        then err (rollback device (missing expected))
        else ok (record {
          accepted = [];
          warnings = waiting device expected (sequence_of event) ∷ [];
          expected = expected;
        }))
    else if event.stored.header.previous_event_hash != previous
    then (if covers pinned (sequence_of event)
        then err (rollback device (chain_changed (sequence_of event)))
        else ok (record {
          accepted = [];
          warnings = forked device (sequence_of event) ∷ [];
          expected = expected;
        }))
    else if contradicts pinned event
    then err (rollback device (different_hash (sequence_of event)))
    else (rest >>= λ run. ok (record run { accepted = event ∷ run.accepted }))

abbrev pub first_expected : Option StreamCursor → ℕ
first_expected none = 1
first_expected (some cursor) = cursor.last_sequence + 1

abbrev pub first_previous : Option StreamCursor → Option Text
first_previous none = none
first_previous (some cursor) = cursor.last_event_hash

-- The end of one device's round: a run that stops before the pinned event is refused.
unfoldable pub end_run : Option StreamCursor → Text → Run → Result Run
end_run none device run = ok run
end_run (some pinned) device run =
    if ltb (run.expected - 1) pinned.last_sequence
    then err (rollback device (ended_before pinned.last_sequence))
    else ok run

unfoldable pub accept_device :
    LocalSyncState → Option CheckpointManifest → Text → List DecryptedEvent → Result Run
accept_device state checkpoint device events =
    let pinned = get state.streams device in
    let cursor = checkpoint_cursor checkpoint device in
    accept_run pinned device (sort compare_events events) (first_expected cursor)
      (first_previous cursor)
    >>= end_run pinned device

pub record Accepted : Type 0 where
  pub accepted : List DecryptedEvent
  pub warnings : List StreamWarning

unfoldable pub accept_groups : LocalSyncState → Option CheckpointManifest → Groups → Result Accepted
accept_groups state checkpoint [] = ok (record { accepted = []; warnings = [] })
accept_groups state checkpoint ((device, events) ∷ groups) =
    let later = accept_groups state checkpoint groups in
    accept_device state checkpoint device events >>= λ run. later >>= λ rest.
    ok (record {
      accepted = run.accepted ++ rest.accepted;
      warnings = run.warnings ++ rest.warnings;
    })

unfoldable pub accept_contiguous_streams :
    List DecryptedEvent → LocalSyncState → Option CheckpointManifest → Result Accepted
accept_contiguous_streams events state checkpoint =
    let groups = group_events state checkpoint [] events in
    check_pinned checkpoint groups state.streams >>= λ _. accept_groups state checkpoint groups

-- ===== src/Protocol/Repository/Allowlist.antt =====
-- src/protocol/repository.ts, `historyEventHashAllowlist`: the events that a history may show.
pub mod Chains
use cursor_setting_sync.Base.{
  ℕ, zero, suc, ◌≡◌, Bool, true, ◌&&◌, Option, none, some, List, [], ◌∷◌, nat_beq, if◌then◌else◌,
  ◌==◌,
}
use cursor_setting_sync.Base.Texts.{Text, text_eq}
use cursor_setting_sync.Base.Maps.{Map, get, set}
use cursor_setting_sync.Base.Sets.{has, add}
use cursor_setting_sync.Types.{DecryptedEvent, StreamCursor, CheckpointManifest}

-- `new Map(events.map((event) => [event.eventHash, event]))`.
unfoldable pub by_hash_from :
    Map Text DecryptedEvent → List DecryptedEvent → Map Text DecryptedEvent
by_hash_from m [] = m
by_hash_from m (event ∷ events) = by_hash_from (set m event.event_hash event) events

abbrev pub by_hash : List DecryptedEvent → Map Text DecryptedEvent
by_hash events = by_hash_from [] events

abbrev pub is_link : Text → ℕ → DecryptedEvent → Bool
is_link device sequence event =
    event.stored.header.device_id == device && nat_beq event.stored.header.sequence sequence

module _ (events : Map Text DecryptedEvent) (device : Text) where
  -- One round of the loop, with the rest of the loop as its last argument: it takes the next hash,
  -- what was visited and what is trusted.
  abbrev pub visit :
      ℕ
      → Option Text
      → List Text
      → List Text
      → (Option Text → List Text → List Text → List Text)
      → List Text
  visit sequence none visited trusted next = trusted
  visit sequence (some hash) visited trusted next =
      if has hash visited then trusted else elim (get events hash) [
        | none ↦ trusted
        | some event ↦
            if is_link device sequence event
            then next event.stored.header.previous_event_hash (add hash visited) (add hash trusted)
            else trusted
      ]

  -- The loop. The sequence falls by one in each round, and after 0 it is that of no event.
  unfoldable pub follow : ℕ → Option Text → List Text → List Text → List Text
  follow zero hash visited trusted = visit zero hash visited trusted (λ _ _ result. result)
  follow (suc n) hash visited trusted = visit (suc n) hash visited trusted (follow n)

-- The loop over the cursors.
unfoldable pub follow_streams :
    Map Text DecryptedEvent → Map Text StreamCursor → List Text → List Text
follow_streams events [] trusted = trusted
follow_streams events ((device, cursor) ∷ streams) trusted =
    follow_streams events streams
      (follow events device cursor.last_sequence cursor.last_event_hash [] trusted)

unfoldable pub history_event_hash_allowlist :
    List DecryptedEvent → List Text → Option CheckpointManifest → List Text
history_event_hash_allowlist events accepted none = accepted
history_event_hash_allowlist events accepted (some checkpoint) =
    follow_streams (by_hash events) checkpoint.streams accepted

-- An event of the device with the sequence.
abbrev pub IsLink : Text → ℕ → DecryptedEvent → Type 0
IsLink device sequence event =
    (event.stored.header.device_id ≡ device) × (event.stored.header.sequence ≡ sequence)

-- The hash is met on the way back from another one over the previous hashes of a device's events,
-- each with the sequence before.
pub data OnChain (events : Map Text DecryptedEvent) (device : Text)
    : Option Text → ℕ → Text → Type 0 where
  here :
      {hash : Text} {n : ℕ} (event : DecryptedEvent)
      → get events hash ≡ some event
      → IsLink device n event
      → OnChain events device (some hash) n hash
  back :
      {hash earlier : Text} {n : ℕ} (event : DecryptedEvent)
      → get events hash ≡ some event
      → IsLink device (suc n) event
      → OnChain events device event.stored.header.previous_event_hash n earlier
      → OnChain events device (some hash) (suc n) earlier

-- ===== src/Helper/ProcessListing.antt =====
-- src/helper/processListingCadence.ts: when the helper lists the processes of the machine.
pub mod Cadence
use cursor_setting_sync.Base.{
  ℕ, ◌+◌, Bool, true, false, ◌&&◌, ◌||◌, not, Option, none, some, List, [], ◌∷◌, ltb, leb,
  if◌then◌else◌,
}

-- `CURSOR_PROCESS_LIST_INTERVAL_MS`, the interval where the call gives none.
abbrev pub cursor_process_list_interval_ms : ℕ
cursor_process_list_interval_ms = 30000

pub record CursorProcessListingState : Type 0 where
  pub last_listing_at : Option ℕ
  pub host_gone : Bool

pub record CursorProcessListingDecision : Type 0 where
  pub due : Bool
  pub state : CursorProcessListingState

abbrev pub clock_rolled_back : Option ℕ → ℕ → Bool
clock_rolled_back none now = false
clock_rolled_back (some last) now = ltb now last

abbrev pub interval_elapsed : Option ℕ → ℕ → ℕ → Bool
interval_elapsed none now interval_ms = false
interval_elapsed (some last) now interval_ms = leb (last + interval_ms) now

abbrev pub is_first : Option ℕ → Bool
is_first none = true
is_first (some last) = false

unfoldable pub is_due : CursorProcessListingState → ℕ → Bool → ℕ → Bool
is_due previous now host_gone interval_ms =
    is_first previous.last_listing_at
    || (not previous.host_gone && host_gone)
    || clock_rolled_back previous.last_listing_at now
    || interval_elapsed previous.last_listing_at now interval_ms

-- `cursorProcessListingDecision`.
unfoldable pub cursor_process_listing_decision :
    CursorProcessListingState → ℕ → Bool → ℕ → CursorProcessListingDecision
cursor_process_listing_decision previous now host_gone interval_ms = record {
  due = is_due previous now host_gone interval_ms;
  state = record {
    last_listing_at =
        if is_due previous now host_gone interval_ms then some now else previous.last_listing_at;
    host_gone = host_gone;
  };
}

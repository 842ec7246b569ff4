-- ===== src/Tests/Cadence.antt =====
-- src/helper/processListingCadence.ts: the theorems at the ticks of a helper.
use cursor_setting_sync.Base.{true, some, [], ◌∷◌, arith}
use cursor_setting_sync.Helper.ProcessListing.{CursorProcessListingState}
use cursor_setting_sync.Helper.ProcessListing.Cadence.{listings, InOrder, Spaced, listings-Spaced}

abbrev listed : CursorProcessListingState
listed = record { last_listing_at = some 1000; host_gone = true }

in_order : InOrder 30000 true 1000 (1500 ∷ 31000 ∷ 31500 ∷ [])
in_order = (omega arith, (omega arith, (omega arith, tt)))

listings-Spaced_example :
    Spaced 30000 true 1000 (listings 30000 true listed (1500 ∷ 31000 ∷ 31500 ∷ []))
listings-Spaced_example = listings-Spaced 30000 true 1000 (1500 ∷ 31000 ∷ 31500 ∷ []) in_order

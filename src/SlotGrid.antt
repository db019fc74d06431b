-- ===== src/SlotGrid.antt =====
-- The grid of slots in the browser, frontend/src/features/parking-slots/components/slot-grid.tsx: what a
-- slot is shown as, and whether it can be clicked, to book it or to restrict it.
use smart_parking_management.Prelude.{
  ℕ, ◌+◌, Bool, ◌||◌, ◌≡◌, Option, none, some, List, [], ◌∷◌, map, find_many, All, if◌then◌else◌,
  arith,
}
use smart_parking_management.Schema.{Db, ParkingSlot}
use smart_parking_management.Schema.Status.{SlotStatus, is_available, is_maintenance}
use smart_parking_management.Environment.{Config, minutes_ms, buffer_ms}
use smart_parking_management.ParkingSlots.{FindSlotsDto, SearchResult, search_window, matches_slot}
use smart_parking_management.ParkingSlots.Search.{is_bookable, search_window-is_bookable}

-- `displayStatus`, of the flag for the window that was searched, if one was, and of the slot's status.
abbrev pub shown_as : Option Bool → SlotStatus → SlotStatus
shown_as none status = status
shown_as (some free) status =
    if is_maintenance status
    then SlotStatus.maintenance
    else if free
    then SlotStatus.available
    else SlotStatus.reserved

unfoldable pub display_status : SearchResult → SlotStatus
display_status r = shown_as r.available_for_window r.slot.status

pub data Variant : Type 0 where
  book manage : Variant

-- `interactive`, where a handler for the click is given.
unfoldable pub is_interactive : Variant → SearchResult → Bool
unfolding display_status
is_interactive Variant.book r = is_available (display_status r)
is_interactive Variant.manage r =
    is_available (display_status r) || is_maintenance (display_status r)

module _ (config : Config) (arrival duration : ℕ) (db : Db) where
  abbrev pub free_for : ParkingSlot → Bool
  free_for slot =
      is_bookable arrival (arrival + minutes_ms duration + buffer_ms config) (buffer_ms config)
        db.reservations slot

  flagged : ParkingSlot → SearchResult
  flagged slot = record { slot = slot; available_for_window = some (free_for slot) }

  flagged-is_interactive :
      (slots : List ParkingSlot)
      → All (λ r. is_interactive Variant.book r ≡ free_for r.slot) (map flagged slots)
  unfolding flagged is_interactive display_status
  flagged-is_interactive [] = tt
  flagged-is_interactive (s ∷ ss) = (ground arith, flagged-is_interactive ss)

  -- Of the slots that a search for a window brings, the grid lets a customer pick exactly those that are
  -- not restricted and that no open reservation blocks for the window.
  pub grid_offers_bookable :
      (dto : FindSlotsDto)
      → All
          (λ r. is_interactive Variant.book r ≡ free_for r.slot)
          (search_window config dto arrival duration db)
  unfolding flagged
  grid_offers_bookable dto =
      rw (search_window-is_bookable config dto arrival duration db)
        (flagged-is_interactive (find_many (matches_slot dto dto.status) db.slots))

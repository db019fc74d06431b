-- ===== src/Tests/Slots.antt =====
-- Runs of ParkingSlotService: a search for a window, and a restriction of slots.
use smart_parking_management.Prelude.{◌≡◌, refl, true, All, false, none, some, [], ◌∷◌, arith}
use smart_parking_management.Schema.Status.{is_maintenance}
use smart_parking_management.Action.{ok}
use smart_parking_management.Reservations.{CreateReservationDto, create, booked_row}
use smart_parking_management.Reservations.Booking.{CanBook}
use smart_parking_management.ParkingSlots.{
  FindSlotsDto, StaffStatus, BulkUpdateSlotStatusDto, search_window,
}
use smart_parking_management.ParkingSlots.Search.{restricted_slot_bookable}
use smart_parking_management.Schema.{Text}
use smart_parking_management.Prelude.{ℕ}
use smart_parking_management.Grid.{row_label, to_decimal, slot_number, build_slot_grid_numbers}
use smart_parking_management.Floors.{UpdateParkingFloorDto, update_floor, has_text}
use smart_parking_management.Floors.SlotNumbers.{has_slot}
use smart_parking_management.Floors.Resizing.{update_floor-has_slot}
use smart_parking_management.Tests.Data.{
  floor_two, slot_a2, morning, new_ids, opening_db, manager_of_lot,
}

abbrev window_dto : FindSlotsDto
window_dto = record {
  lot_id = 1;
  floor_id = none;
  status = none;
  arrival_time = some 1_003_600_000;
  duration_minutes = some 90;
}

abbrev restricted_request : CreateReservationDto
restricted_request = record { slot_id = 6; arrival_time = 1_003_600_000; duration_minutes = 90 }

abbrev can_book_a2 : CanBook morning restricted_request opening_db
can_book_a2 = record {
  not_past = omega arith;
  not_too_far = omega arith;
  slot = slot_a2;
  slot_found = refl;
  lot_open = refl;
  is_free = tt;
}

restricted_slot_bookable_example :
    All
      (λ e. is_maintenance e.slot.status ≡ true → e.available_for_window ≡ some false)
      (search_window morning.config window_dto 1_003_600_000 90 opening_db)
    × ((create morning new_ids restricted_request 7 opening_db).0
        ≡ ok (booked_row new_ids restricted_request 7 slot_a2, 22))
restricted_slot_bookable_example =
    restricted_slot_bookable morning new_ids window_dto restricted_request 7 opening_db can_book_a2
      refl

abbrev lift_both : BulkUpdateSlotStatusDto
lift_both = record {
  slot_ids = 5 ∷ 6 ∷ [];
  update = record { status = StaffStatus.lifted; reason = none };
}

-- A third slot in the row of the floor.
abbrev wider : UpdateParkingFloorDto
wider = record {
  name = none;
  floor_number = none;
  rows = none;
  columns = some 3;
  default_slot_price = some 300;
}

-- The id of the one new slot.
abbrev fresh_id : Text → ℕ
fresh_id number = 100

update_floor-has_slot_example :
    has_slot 2
      (b'A' ∷ b'3' ∷ [])
      (update_floor fresh_id 1 2 wider manager_of_lot opening_db).1.slots
    ≡ has_text (build_slot_grid_numbers 1 3) (b'A' ∷ b'3' ∷ [])
unfolding update_floor row_label to_decimal slot_number build_slot_grid_numbers
update_floor-has_slot_example =
    update_floor-has_slot fresh_id 1 2 wider manager_of_lot opening_db floor_two (b'A' ∷ b'3' ∷ [])
      (((λ e. omega arith), tt), (tt, tt)) refl refl tt

-- ===== src/Tests/Bookings.antt =====
-- Runs of ReservationService: a booking of the free slot A1, and one of a restricted slot.
use smart_parking_management.Prelude.{◌≡◌, refl, arith}
use smart_parking_management.Action.{err, Error}
use smart_parking_management.Environment.{buffer_ms, default_config}
use smart_parking_management.Lifecycle.{NoDoubleBooking}
use smart_parking_management.Reservations.{create, CreateReservationDto}
use smart_parking_management.Reservations.Booking.{CanBook, create-CanBook, create-NoDoubleBooking}
use smart_parking_management.Tests.Data.{slot_a1, morning, new_ids, request, opening_db, booked_db}

-- The same slot for the next morning hour.
abbrev later_request : CreateReservationDto
later_request = record { slot_id = 5; arrival_time = 1_010_800_000; duration_minutes = 15 }

abbrev pub can_book_a1 : CanBook morning request opening_db
can_book_a1 = record {
  not_past = omega arith;
  not_too_far = omega arith;
  slot = slot_a1;
  slot_found = refl;
  lot_open = refl;
  is_free = tt;
}

create-CanBook_example : CanBook morning request opening_db
unfolding create
create-CanBook_example = create-CanBook morning new_ids request 7 opening_db tt

create-NoDoubleBooking_example :
    NoDoubleBooking
      (buffer_ms default_config)
      (create morning
        (record new_ids { reservation_id = 40 })
        later_request
        8
        booked_db).1.reservations
create-NoDoubleBooking_example =
    create-NoDoubleBooking morning (record new_ids { reservation_id = 40 }) later_request 8
      booked_db ((λ e. omega arith), tt) (tt, tt)

-- A second request for the time of the first is refused.
second_refused : (create morning new_ids request 8 booked_db).0 ≡ err Error.slot_unavailable
unfolding create
second_refused = refl

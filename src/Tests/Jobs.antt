-- ===== src/Tests/Jobs.antt =====
-- Runs of ReservationMonitoringService: the sweep of no-shows, and the end of a grace period.
use smart_parking_management.Prelude.{◌≡◌, refl, inr, some, [], ◌∷◌, map, arith}
use smart_parking_management.Schema.{Db, Reservation}
use smart_parking_management.Action.{ok}
use smart_parking_management.Environment.{Ids, buffer_ms, default_config}
use smart_parking_management.Tables.{find_reservation}
use smart_parking_management.Lifecycle.{Apart, NoDoubleBooking}
use smart_parking_management.Monitoring.{
  is_no_show, cancel_no_show, cancel_no_shows, resolve_grace_expiry, extend_booking,
}
use smart_parking_management.Sweeps.{cancelled_row, swept}
use smart_parking_management.Monitoring.NoShows.{cancel_no_shows-swept, cancel_no_show_overwrites}
use smart_parking_management.Monitoring.Grace.{extended_row}
use smart_parking_management.Monitoring.Overstay.{
  resolve_grace_expiry_over_parked, extend_booking_over_new,
}
use smart_parking_management.Reservations.{CreateReservationDto, create, booked_row}
use smart_parking_management.Reservations.Booking.{CanBook}
use smart_parking_management.Monitoring.Overlap.{resolve_grace_expiry-NoDoubleBooking}
use smart_parking_management.Tests.Data.{
  env_at, booking, parking, booked_db, parked_db, active, slot_a1,
}

-- The customer of the booking is late by more than an hour.
cancel_no_shows-swept_example :
    ((cancel_no_shows (env_at 1_007_300_000) booked_db).0 ≡ ok tt)
    × ((cancel_no_shows (env_at 1_007_300_000) booked_db).1.reservations
        ≡ map (swept (is_no_show (env_at 1_007_300_000))) (booking ∷ []))
cancel_no_shows-swept_example = cancel_no_shows-swept (env_at 1_007_300_000) booked_db (tt, tt)

late_booking : swept (is_no_show (env_at 1_007_300_000)) booking ≡ cancelled_row booking
late_booking = refl

-- The sweep read the booking before its customer was checked in.
cancel_no_show_overwrites_example :
    ((cancel_no_show booking parked_db).0 ≡ ok tt)
    × (find_reservation 20 (cancel_no_show booking parked_db).1 ≡ some (cancelled_row parking))
cancel_no_show_overwrites_example = cancel_no_show_overwrites booking parking parked_db refl

resolve_grace_expiry-NoDoubleBooking_example :
    NoDoubleBooking
      (buffer_ms default_config)
      (resolve_grace_expiry (env_at 1_012_640_000) active parked_db).1.reservations
resolve_grace_expiry-NoDoubleBooking_example =
    resolve_grace_expiry-NoDoubleBooking (env_at 1_012_640_000) active parked_db (omega arith) refl
      refl ((λ ne same o. absurd (ne refl)), tt) (tt, tt)

-- The next customer of slot A1, who has been checked in half an hour after the end of the booking.
abbrev next_parking : Reservation
next_parking = record parking {
  id = 50;
  user_id = 8;
  start_time = 1_010_800_000;
  end_time = 1_020_000_000;
}

abbrev shared_slot_db : Db
shared_slot_db = record parked_db { reservations = parking ∷ next_parking ∷ [] }

resolve_grace_expiry_over_parked_example :
    let db' = (resolve_grace_expiry (env_at 1_012_640_000) active shared_slot_db).1 in
    (find_reservation 20 db' ≡ some (extended_row parking parking))
    × (find_reservation 50 db' ≡ some next_parking)
    × ¬ Apart (buffer_ms default_config) (extended_row parking parking) next_parking
resolve_grace_expiry_over_parked_example =
    resolve_grace_expiry_over_parked (env_at 1_012_640_000) active next_parking shared_slot_db refl
      refl (λ e. omega arith) refl refl refl (omega arith) (omega arith) (omega arith) (omega arith)
      refl refl

-- While the job waits for its transaction, customer 8 books the slot for 40 minutes after the end.
abbrev late_request : CreateReservationDto
late_request = record { slot_id = 5; arrival_time = 1_011_400_000; duration_minutes = 60 }

abbrev late_ids : Ids
late_ids = record { reservation_id = 60; qr_id = 61; qr_token = 62 }

abbrev can_book_late : CanBook (env_at 1_010_900_000) late_request parked_db
can_book_late = record {
  not_past = omega arith;
  not_too_far = omega arith;
  slot = slot_a1;
  slot_found = refl;
  lot_open = refl;
  is_free = ((λ _ _. inr (omega arith)), tt);
}

extend_booking_over_new_example :
    let env = env_at 1_010_900_000 in
    let booked = booked_row late_ids late_request 8 slot_a1 in
    let db' = (extend_booking active (create env late_ids late_request 8 parked_db).1).1 in
    (resolve_grace_expiry env active parked_db ≡ extend_booking active parked_db)
    × (find_reservation 20 db' ≡ some (extended_row parking parking))
    × (find_reservation 60 db' ≡ some booked)
    × ¬ Apart (buffer_ms default_config) (extended_row parking parking) booked
extend_booking_over_new_example =
    extend_booking_over_new (env_at 1_010_900_000) late_ids late_request 8 active parked_db refl
      refl (omega arith) refl refl can_book_late refl refl (omega arith) (omega arith)

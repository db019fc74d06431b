-- ===== src/Tests/Scans.antt =====
-- Runs of CheckpointService: a check-in, check-outs with an accepted and with a declined card, and
-- scans that are refused.
use smart_parking_management.Prelude.{ℕ, ◌≡◌, refl, false, some, List, [], ◌∷◌, arith, ◌==◌}
use smart_parking_management.Schema.{PaymentMethod, Payment, ParkingSlot, QrCode, Reservation}
use smart_parking_management.Schema.Status.{SlotStatus, PaymentStatus, ReservationStatus}
use smart_parking_management.Action.{err, Error}
use smart_parking_management.Checkpoint.Leaving.{bill, check_out_charges, check_out_records_failure}
use smart_parking_management.Tables.{use_code, find_payment, find_reservation, find_slot}
use smart_parking_management.Checkpoint.{check_in, check_out, find_code}
use smart_parking_management.Checkpoint.CheckIn.{CanCheckIn, check_in-CanCheckIn, check_in_once}
use smart_parking_management.Checkpoint.CheckOut.{CanCheckOut, charge, check_out_once}
use smart_parking_management.Tests.Data.{
  card_of, slot_a1, env_at, exit_ids, booking, parking, entry_code, exit_code, booked_db, parked_db,
  parked_unpaid_db,
}

abbrev can_enter : CanCheckIn (env_at 1_003_600_000) 22 booked_db entry_code booking
can_enter = record {
  scannable = record {
    code_found = refl;
    right_type = refl;
    unused = refl;
    not_expired = refl;
    reservation_found = refl;
  };
  is_awaited = refl;
  window_open = refl;
  slot = slot_a1;
  slot_found = refl;
}

check_in-CanCheckIn_example :
    (code : QrCode) × (r : Reservation) × CanCheckIn (env_at 1_003_600_000) 22 booked_db code r
unfolding check_in
check_in-CanCheckIn_example = check_in-CanCheckIn (env_at 1_003_600_000) exit_ids 22 9 booked_db tt

check_in_once_example :
    let db' = record (check_in (env_at 1_003_600_000) exit_ids 22 9 booked_db).1 { users = [] } in
    check_in (env_at 1_003_700_000) exit_ids 22 9 db' ≡ (err Error.qr_used, db')
unfolding check_in
check_in_once_example =
    check_in_once (env_at 1_003_600_000) (env_at 1_003_700_000) exit_ids exit_ids 22 9 9 booked_db
      (record (check_in (env_at 1_003_600_000) exit_ids 22 9 booked_db).1 { users = [] })
      (λ e. omega arith) tt refl

-- Twenty minutes before the window opens.
too_early : (check_in (env_at 1_001_500_000) exit_ids 22 9 booked_db).0 ≡ err Error.too_early
unfolding check_in
too_early = refl

abbrev can_leave : CanCheckOut (env_at 1_008_000_000) 32 parked_db exit_code parking
can_leave = record {
  scannable = record {
    code_found = refl;
    right_type = refl;
    unused = refl;
    not_expired = refl;
    reservation_found = refl;
  };
  is_parked = refl;
  slot = slot_a1;
  slot_found = refl;
}

abbrev unpaid : Reservation
unpaid = record parking { user_id = 8 }

abbrev could_leave : CanCheckOut (env_at 1_008_000_000) 32 parked_unpaid_db exit_code unpaid
could_leave = record {
  scannable = record {
    code_found = refl;
    right_type = refl;
    unused = refl;
    not_expired = refl;
    reservation_found = refl;
  };
  is_parked = refl;
  slot = slot_a1;
  slot_found = refl;
}

check_out_charges_example :
    let db' = (check_out (env_at 1_008_000_000) 32 9 parked_db).1 in
    (find_payment parking.id db'
      ≡ some (record (bill parked_db parking) {
        status = PaymentStatus.successful;
        paid_at = some 1_008_000_000;
      }))
    × ((k : ℕ) → (parking.id == k) ≡ false → find_payment k db' ≡ find_payment k parked_db)
    × (find_reservation parking.id db'
        ≡ some (record parking {
          status = ReservationStatus.completed;
          checked_out_at = some 1_008_000_000;
        }))
    × ((slot : ParkingSlot)
        → find_slot parking.slot_id parked_db ≡ some slot
        → find_slot parking.slot_id db' ≡ some (record slot { status = SlotStatus.available }))
    × (find_code 32 db' ≡ some (use_code 1_008_000_000 exit_code))
check_out_charges_example =
    check_out_charges (env_at 1_008_000_000) 32 9 parked_db exit_code parking can_leave refl

check_out_records_failure_example :
    let db' = (check_out (env_at 1_008_000_000) 32 9 parked_unpaid_db).1 in
    (find_payment unpaid.id db' ≡ some (bill parked_unpaid_db unpaid))
    × ((k : ℕ) → (unpaid.id == k) ≡ false → find_payment k db' ≡ find_payment k parked_unpaid_db)
    × (db'.reservations ≡ unpaid ∷ [])
    × (db'.slots ≡ parked_unpaid_db.slots)
    × (db'.qr_codes ≡ exit_code ∷ [])
check_out_records_failure_example =
    check_out_records_failure (env_at 1_008_000_000) 32 9 parked_unpaid_db exit_code unpaid
      could_leave.scannable refl refl

check_out_once_example :
    let db' = record (check_out (env_at 1_008_000_000) 32 9 parked_db).1 { users = [] } in
    check_out (env_at 1_008_100_000) 32 9 db' ≡ (err Error.qr_used, db')
unfolding check_out
check_out_once_example =
    check_out_once (env_at 1_008_000_000) (env_at 1_008_100_000) 32 9 9 parked_db
      (record (check_out (env_at 1_008_000_000) 32 9 parked_db).1 { users = [] }) exit_code parking
      can_leave refl refl

abbrev mended_cards : List PaymentMethod
mended_cards = card_of 8 (b'1' ∷ b'2' ∷ b'3' ∷ b'4' ∷ []) ∷ []

abbrev failed_payment : Payment
failed_payment = charge (env_at 1_008_000_000) unpaid parked_unpaid_db

abbrev settled_payment : Payment
settled_payment = charge (env_at 1_008_100_000) parking parked_db

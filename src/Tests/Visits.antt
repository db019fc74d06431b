-- ===== src/Tests/Visits.antt =====
-- Runs of the whole system: a visit, and a sequence of transactions.
use smart_parking_management.Prelude.{◌≡◌, refl, false, [], arith}
use smart_parking_management.Schema.{Db}
use smart_parking_management.Schema.Status.{Role}
use smart_parking_management.Action.{ok, err}
use smart_parking_management.Environment.{buffer_ms, default_config}
use smart_parking_management.Billing.{calculate_base_charge}
use smart_parking_management.Lifecycle.{NoDoubleBooking}
use smart_parking_management.Reservations.{
  create, cancel, confirm_checkout_payment, fail_checkout_payment, booked_row,
}
use smart_parking_management.Reservations.Progress.{settle_error}
use smart_parking_management.Reservations.Booking.{CanBook}
use smart_parking_management.Checkpoint.{check_in, check_out, payment_row}
use smart_parking_management.System.{
  Reach, here, next, creates, cancels, checks_in, Reach-NoDoubleBooking,
}
use smart_parking_management.System.Pending.{NonePending, settle_unreachable}
use smart_parking_management.System.Journey.{visit}
use smart_parking_management.Tests.Data.{
  slot_a1, env_at, morning, new_ids, exit_ids, request, opening_db,
}

abbrev free_a1 : CanBook morning request opening_db
free_a1 = record {
  not_past = omega arith;
  not_too_far = omega arith;
  slot = slot_a1;
  slot_found = refl;
  lot_open = refl;
  is_free = tt;
}

abbrev a1_booked : Db
a1_booked = (create morning new_ids request 7 opening_db).1

abbrev a1_entered : Db
a1_entered = (check_in (env_at 1_003_600_000) exit_ids 22 9 a1_booked).1

-- Booked at 1_000_000_000, entered on time, left before the end.
visit_example :
    ((create morning new_ids request 7 opening_db).0
      ≡ ok (booked_row new_ids request 7 slot_a1, 22))
    × ((check_in (env_at 1_003_600_000) exit_ids 22 9 a1_booked).0 ≡ ok 32)
    × ((check_out (env_at 1_008_000_000) 32 9 a1_entered).0
        ≡ ok (record {
          payment = payment_row 1_008_000_000 20 (calculate_base_charge 250 90) false;
          challans = [];
          payment_failed = false;
        }))
visit_example =
    visit morning (env_at 1_003_600_000) (env_at 1_008_000_000) new_ids exit_ids request 7 9
      opening_db free_a1 (omega arith) (omega arith) refl refl

-- The booking is made, its vehicle enters, and the customer asks to cancel.
abbrev a1_reached :
    Reach default_config opening_db
      (cancel 20 (record { user_id = 7; role = Role.customer }) a1_entered).1
a1_reached =
    next
      (next (next here (creates morning new_ids request 7 opening_db refl tt))
        (checks_in (env_at 1_003_600_000) exit_ids 22 9 a1_booked))
      (cancels 20 (record { user_id = 7; role = Role.customer }) a1_entered)

Reach-NoDoubleBooking_example :
    NoDoubleBooking
      (buffer_ms default_config)
      (cancel 20 (record { user_id = 7; role = Role.customer }) a1_entered).1.reservations
Reach-NoDoubleBooking_example = Reach-NoDoubleBooking (omega arith) tt a1_reached

settle_unreachable_example :
    NonePending a1_booked.reservations
    × (confirm_checkout_payment morning 20 7 a1_booked
        ≡ (err (settle_error 20 7 a1_booked), a1_booked))
    × (fail_checkout_payment 20 7 a1_booked ≡ (err (settle_error 20 7 a1_booked), a1_booked))
settle_unreachable_example =
    settle_unreachable {config = default_config} {start = opening_db} morning 20 7 (omega arith) tt
      tt (next here (creates morning new_ids request 7 opening_db refl tt))

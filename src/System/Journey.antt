-- ===== src/System/Journey.antt =====
-- One visit from booking to exit, over `ReservationService.create`, `CheckpointService.checkIn` and
-- `CheckpointService.checkOut`.
use smart_parking_management.Prelude.{
  ℕ, ◌+◌, ◌≤◌, Bool, false, ◌≡◌, refl, ◌∙◌, ap, subst, sym, some, List, [], ◌∷◌, arith, ◌==◌,
  if◌then◌else◌, find_first, find_first-holds, update_many, ==_refl, ==_sound, Bool-cases, inl, inr,
  ◌&&◌,
}
use smart_parking_management.Schema.{Db, ParkingSlot, Reservation}
use smart_parking_management.Schema.Status.{SlotStatus, is_available}
use smart_parking_management.Action.{ok}
use smart_parking_management.Environment.{Env, Ids, minutes_ms}
use smart_parking_management.Billing.{calculate_base_charge, challans_of, final_charge}
use smart_parking_management.Tables.{move_slot, any_status}
use smart_parking_management.Reservations.{CreateReservationDto, booked_row, check_in_code, create}
use smart_parking_management.Reservations.Booking.{CanBook, CanBook-create, CanBook-create-tables}
use smart_parking_management.Checkpoint.{
  CodeIds, find_payment_method, is_declined, payment_row, check_in, check_out, check_out_code,
}
use smart_parking_management.Checkpoint.CheckIn.{
  CanCheckIn, CanCheckIn-check_in, check_in_keeps, parked,
}
use smart_parking_management.Checkpoint.CheckOut.{CanCheckOut, check_out_paid}

find_slot-move :
    (k id : ℕ) (from : SlotStatus → Bool) (to : SlotStatus) (slots : List ParkingSlot)
    {slot : ParkingSlot}
    → find_first (λ s. s.id == k) slots ≡ some slot
    → (moved : ParkingSlot) × (find_first
          (λ s. s.id == k)
          (update_many (λ s. s.id == id && from s.status) (λ s. record s { status = to }) slots)
        ≡ some moved)
find_slot-move k id from to [] e = cc
find_slot-move k id from to (s ∷ ss) e = elim (Bool-cases (s.id == k)) [
  | inl here ↦ (if s.id == id && from s.status then record s { status = to } else s, ground arith)
  | inr there ↦
      let (moved, found) = find_slot-move k id from to ss (rw there at e) in (moved, ground arith)
]

final_charge_base :
    (r : Reservation) (db : Db)
    → challans_of r.id db.challans ≡ []
    → final_charge r db.challans ≡ r.total_price
unfolding final_charge
final_charge_base r db h = rw h (omega arith)

module _ (env entry exit : Env) (ids : Ids) (codes : CodeIds) (dto : CreateReservationDto)
    (user staff : ℕ) (db : Db) (c : CanBook env dto db) where
  -- The database after the booking, and after the check-in.
  abbrev pub booked : Db
  booked = (create env ids dto user db).1

  abbrev pub entered : Db
  entered = (check_in entry codes ids.qr_token staff booked).1

  -- A booking that was made is admitted with its code from the opening of its window to the end of
  -- the grace period.
  pub booked-CanCheckIn :
      dto.arrival_time ≤ entry.now + minutes_ms entry.config.checkin_early_minutes
      → entry.now ≤ dto.arrival_time + minutes_ms env.config.checkin_grace_minutes
      → CanCheckIn entry ids.qr_token booked
          (check_in_code env ids dto)
          (booked_row ids dto user c.slot)
  booked-CanCheckIn opens in_grace =
      let (_, rows) = CanBook-create env ids dto user db c in
      let (qr, slots, _, _) = CanBook-create-tables env ids dto user db c in
      let same = ==_sound c.slot.id dto.slot_id (find_first-holds _ db.slots c.slot_found) in
      let (moved, found) =
        find_slot-move dto.slot_id dto.slot_id is_available SlotStatus.reserved db.slots
          c.slot_found in
      record {
        scannable = record {
          code_found = rw qr (rw (==_refl ids.qr_token));
          right_type = refl;
          unused = refl;
          not_expired = ground arith;
          reservation_found = rw rows (rw (==_refl ids.reservation_id));
        };
        is_awaited = refl;
        window_open = ground arith;
        slot = moved;
        slot_found = rw slots (
            subst
              (λ k.
                find_first (λ s. s.id == k)
                  (move_slot dto.slot_id is_available SlotStatus.reserved db).slots
                ≡ some moved)
              (sym same) found);
      }

  module _ (opens : dto.arrival_time ≤ entry.now + minutes_ms entry.config.checkin_early_minutes)
      (in_grace : entry.now ≤ dto.arrival_time + minutes_ms env.config.checkin_grace_minutes) where
    entered-CanCheckOut :
        CanCheckOut exit codes.qr_token entered
          (check_out_code codes ids.reservation_id)
          (parked entry.now (booked_row ids dto user c.slot))
    entered-CanCheckOut =
        let row = booked_row ids dto user c.slot in
        let entering = booked-CanCheckIn opens in_grace in
        let (_, rows, slots, qr) =
          CanCheckIn-check_in entry codes ids.qr_token staff booked (check_in_code env ids dto) row
            entering in
        let (moved, found) =
          find_slot-move row.slot_id row.slot_id any_status SlotStatus.occupied booked.slots
            entering.slot_found in
        record {
          scannable = record {
            code_found = rw qr (rw (==_refl codes.qr_token));
            right_type = refl;
            unused = refl;
            not_expired = refl;
            reservation_found = rw rows (
                rw (CanBook-create env ids dto user db c).1
                  (rw (==_refl ids.reservation_id) (rw (==_refl ids.reservation_id))));
          };
          is_parked = refl;
          slot = moved;
          slot_found = rw slots found;
        }

    -- A visit from booking to exit, if the user's card is accepted and no challan bears the new
    -- reservation's id: a booking that can be made is admitted with the code that it returned, at
    -- any time from the opening of its window to the end of the grace period, and let out with the
    -- code of the check-in, charged the rate times the booked hours, if nothing else happens in
    -- between.
    pub visit :
        challans_of ids.reservation_id db.challans ≡ []
        → is_declined (find_payment_method user db) ≡ false
        → ((create env ids dto user db).0 ≡ ok (booked_row ids dto user c.slot, ids.qr_token))
          × ((check_in entry codes ids.qr_token staff booked).0 ≡ ok codes.qr_token)
          × ((check_out exit codes.qr_token staff entered).0
              ≡ ok (record {
                payment =
                    payment_row exit.now ids.reservation_id
                      (calculate_base_charge c.slot.base_price dto.duration_minutes)
                      false;
                challans = [];
                payment_failed = false;
              }))
    visit no_challans accepted =
        let row = parked entry.now (booked_row ids dto user c.slot) in
        let (kept, kept_methods) = check_in_keeps entry codes ids.qr_token staff booked in
        let (_, _, booked_kept, booked_methods) = CanBook-create-tables env ids dto user db c in
        let challans = kept ∙ booked_kept in
        let methods = kept_methods ∙ booked_methods in
        let accepted_then : is_declined (find_payment_method user entered) ≡ false =
          rw methods accepted in
        let none_then : challans_of ids.reservation_id entered.challans ≡ [] =
          rw challans no_challans in
        let charged = final_charge_base row entered none_then in
        let left =
          (check_out_paid exit codes.qr_token staff entered
            (check_out_code codes ids.reservation_id) row entered-CanCheckOut accepted_then).0 in
        (
          (CanBook-create env ids dto user db c).0,
          (CanCheckIn-check_in entry codes ids.qr_token staff booked (check_in_code env ids dto)
              (booked_row ids dto user c.slot) (booked-CanCheckIn opens in_grace)).0,
          left
              ∙ ap ok (λ i. record {
                payment = payment_row exit.now ids.reservation_id (charged i) (accepted_then i);
                challans = none_then i;
                payment_failed = accepted_then i;
              }),
        )

-- ===== src/Monitoring/Overstay.antt =====
-- The end of a grace period where the next customer of the slot has been checked in already, or books
-- between the job's search and its transaction, in reservation-monitoring.service.ts.
use smart_parking_management.Prelude.{
  ℕ, ◌≤◌, ◌<◌, true, false, ◌≡◌, ◌≢◌, sym, some, List, [], ◌∷◌, arith, ◌==◌, any, if◌then◌else◌,
  find_first, update_many, ◌∙◌, ==_refl, refl,
}
use smart_parking_management.Schema.{Db, Reservation}
use smart_parking_management.Schema.Status.{ChallanType, is_checked_in}
use smart_parking_management.Environment.{Env, Ids, buffer_ms}
use smart_parking_management.Tables.{find_reservation}
use smart_parking_management.Lifecycle.{Apart}
use smart_parking_management.Reservations.{CreateReservationDto, create, booked_row}
use smart_parking_management.Reservations.Booking.{CanBook, CanBook-create, CanBook-create-tables}
use smart_parking_management.Monitoring.{
  ActiveReservation, has_challan, extended_end, is_next, resolve_grace_expiry, extend_booking,
}
use smart_parking_management.Monitoring.Grace.{extended_row, extend_new}
use smart_parking_management.Monitoring.Overlap.{resolve_unqueued}

find_first-extended :
    (k j : ℕ) (a r : Reservation) (rs : List Reservation)
    → find_first (λ x. x.id == k) rs ≡ some r
    → find_first (λ x. x.id == k) (update_many (λ x. x.id == j) (extended_row a) rs)
      ≡ some (if k == j then extended_row a r else r)
find_first-extended k j a r [] e = cc
find_first-extended k j a r (x ∷ xs) e = ground (arith, find_first-extended k j a r xs)

-- Where another customer has checked in to the slot within the hour after the booking's end, no
-- CONFIRMED reservation of the slot is to come, and this cycle has no extension yet, the
-- overstaying booking, which is checked in, is extended all the same, over the start of the other
-- one, so that the two are not apart any more.
pub resolve_grace_expiry_over_parked :
    (env : Env) (a : ActiveReservation) (other : Reservation) (db : Db)
    → find_reservation a.reservation.id db ≡ some a.reservation
    → find_reservation other.id db ≡ some other
    → a.reservation.id ≢ other.id
    → other.slot_id ≡ a.reservation.slot_id
    → is_checked_in other.status ≡ true
    → is_checked_in a.reservation.status ≡ true
    → a.reservation.start_time < a.reservation.end_time
    → a.reservation.end_time ≤ other.start_time
    → other.start_time ≤ other.end_time
    → other.start_time < extended_end a.reservation
    → any (is_next a.reservation) db.reservations ≡ false
    → has_challan a.reservation ChallanType.extension db ≡ false
    → let db' = (resolve_grace_expiry env a db).1 in
      (find_reservation a.reservation.id db' ≡ some (extended_row a.reservation a.reservation))
      × (find_reservation other.id db' ≡ some other)
      × ¬ Apart (buffer_ms env.config) (extended_row a.reservation a.reservation) other
resolve_grace_expiry_over_parked env a other db e f ne same parked_other parked_a a_lasts after
      other_lasts early none_next new =
    let k = a.reservation.id in
    let rows = (extend_new a db a.reservation new e).2 in
    rw (resolve_unqueued env a db none_next) (
      rw rows
          (find_first-extended k k a.reservation a.reservation db.reservations e ∙ ground arith),
      rw rows (find_first-extended other.id k a.reservation other db.reservations f ∙ ground arith),
      λ h. let apart = h.1 (sym same) (ground arith) (ground arith) in omega arith,
    )

-- The job searches for the next booking of the slot before the transaction that extends. If it finds
-- none, and a booking of the slot is made before that transaction, which begins after the end of the
-- overstaying booking and within the hour after it, then the job extends the overstaying booking, which
-- is checked in and has no extension yet for this cycle, over the start of the new one, so that the two
-- are not apart.
pub extend_booking_over_new :
    (env : Env) (ids : Ids) (dto : CreateReservationDto) (user : ℕ) (a : ActiveReservation)
    (db : Db)
    → find_reservation a.reservation.id db ≡ some a.reservation
    → is_checked_in a.reservation.status ≡ true
    → a.reservation.start_time < a.reservation.end_time
    → any (is_next a.reservation) db.reservations ≡ false
    → has_challan a.reservation ChallanType.extension db ≡ false
    → (c : CanBook env dto db) → (ids.reservation_id == a.reservation.id) ≡ false
    → c.slot.id ≡ a.reservation.slot_id
    → a.reservation.end_time ≤ dto.arrival_time
    → dto.arrival_time < extended_end a.reservation
    → let booked = booked_row ids dto user c.slot in
      let between = (create env ids dto user db).1 in
      let db' = (extend_booking a between).1 in
      (resolve_grace_expiry env a db ≡ extend_booking a db)
      × (find_reservation a.reservation.id db' ≡ some (extended_row a.reservation a.reservation))
      × (find_reservation ids.reservation_id db' ≡ some booked)
      × ¬ Apart (buffer_ms env.config) (extended_row a.reservation a.reservation) booked
extend_booking_over_new env ids dto user a db e parked lasts none_next new c fresh same after
      early =
    let k = a.reservation.id in
    let booked = booked_row ids dto user c.slot in
    let between = (create env ids dto user db).1 in
    let rows = (CanBook-create env ids dto user db c).1 in
    let challans = (CanBook-create-tables env ids dto user db c).2 in
    let still : has_challan a.reservation ChallanType.extension between ≡ false = rw challans new in
    let found : find_reservation k between ≡ some a.reservation = rw (rows, fresh) e in
    let here = ==_refl ids.reservation_id in
    let placed : find_reservation ids.reservation_id between ≡ some booked = rw (rows, here) refl in
    let extended = (extend_new a between a.reservation still found).2 in
    (
      resolve_unqueued env a db none_next,
      rw extended (
          find_first-extended k k a.reservation a.reservation between.reservations found
          ∙ ground arith),
      rw extended (
          find_first-extended ids.reservation_id k a.reservation booked between.reservations placed
          ∙ rw fresh refl),
      λ h. let apart = h.1 (sym same) (ground arith) refl in omega arith,
    )

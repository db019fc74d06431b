-- ===== src/Monitoring.antt =====
-- backend/src/modules/reservation/reservation-monitoring.service.ts: the job that runs every minute.
-- It cancels the reservations whose customer has not come, reminds those who are parked, and, when
-- the grace period after a booking has passed, extends the booking or flags it as overtime.
pub mod NoShows
pub mod Grace
pub mod Overlap
pub mod Overstay
use smart_parking_management.Prelude.{
  ℕ, ◌+◌, ◌*◌, ◌/◌, Bool, true, false, not, ◌&&◌, ◌||◌, Option, none, some, List, [], ◌∷◌, ◌++◌,
  find_first, find_many, update_many, any, ltb, leb, ◌==◌, if◌then◌else◌,
}
use smart_parking_management.Schema.{Db, ParkingLot, ParkingSlot, Reservation, Challan}
use smart_parking_management.Schema.Status.{
  SlotStatus, ReservationStatus, QrCodeType, ChallanType, NotificationType,
  NotificationRecipientRole, AuditAction, is_confirmed, is_checked_in, is_reserved,
  same_challan_type,
}
use smart_parking_management.Action.{
  Action, for_each, Result, ok, err, Error, pure, gets, or_throw, throw_if, modify, transaction,
  ◌>>=◌, ◌>>◌,
}
use smart_parking_management.Environment.{Env, Config, minutes_ms, buffer_ms}
use smart_parking_management.Services.{log, notify}
use smart_parking_management.Tables.{
  find_slot, find_lot, find_reservation, move_slot, set_reservation_status, close_codes,
  expire_code, notify_once,
}

-- `where: { status: CONFIRMED, startTime: { lt: now - grace } }`
abbrev pub is_no_show : Env → Reservation → Bool
is_no_show env r =
    is_confirmed r.status
    && ltb (r.start_time + minutes_ms env.config.checkin_grace_minutes) env.now

-- The transaction that cancels one no-show, as it was read before the loop.
unfoldable pub cancel_no_show : Reservation → Action (Unit {0})
cancel_no_show reservation = transaction do
  or_throw (← gets (find_reservation reservation.id)) Error.record_missing
  modify (set_reservation_status reservation.id ReservationStatus.cancelled)
  modify (move_slot reservation.slot_id is_reserved SlotStatus.available)
  modify (close_codes reservation.id QrCodeType.check_in expire_code)
  log reservation.id AuditAction.reservation_auto_cancelled_no_show none
  notify_once reservation.user_id NotificationRecipientRole.user
      NotificationType.reservation_expired reservation.id
  pure tt

-- `cancelNoShows`
unfoldable pub cancel_no_shows : Env → Action (Unit {0})
unfolding for_each cancel_no_show
cancel_no_shows env = do
  no_shows ← gets (λ db. find_many (is_no_show env) db.reservations)
  for_each cancel_no_show no_shows

-- A parked reservation with its slot and its lot, as `findMany` joins them.
pub record ActiveReservation : Type 0 where
  pub reservation : Reservation
  pub slot : ParkingSlot
  pub lot : ParkingLot

abbrev join_lot : Reservation → ParkingSlot → Option ParkingLot → List ActiveReservation
join_lot reservation slot none = []
join_lot reservation slot (some lot) =
    record { reservation = reservation; slot = slot; lot = lot } ∷ []

abbrev join_slot : Db → Reservation → Option ParkingSlot → List ActiveReservation
join_slot db reservation none = []
join_slot db reservation (some slot) = join_lot reservation slot (find_lot reservation.lot_id db)

-- `include: { slot: true, lot: true }`; the foreign keys make sure that both are there.
pub join_all : Db → List Reservation → List ActiveReservation
join_all db [] = []
join_all db (r ∷ rs) = join_slot db r (find_slot r.slot_id db) ++ join_all db rs

-- A notification of the checkout cycle that ends at the reservation's present end.
abbrev pub notify_cycle :
    ℕ → NotificationRecipientRole → NotificationType → Reservation → Action Bool
notify_cycle recipient role type reservation = notify (record {
  recipient_id = recipient;
  recipient_role = role;
  notification_type = type;
  reservation_id = some reservation.id;
  for_checkout_at = some reservation.end_time;
})

-- The unique key (reservationId, type, forCheckoutAt) of a challan.
abbrev pub is_challan : ℕ → ChallanType → ℕ → Challan → Bool
is_challan reservation_id type at challan =
    challan.reservation_id == reservation_id
    && same_challan_type challan.challan_type type
    && challan.for_checkout_at == at

abbrev pub has_challan : Reservation → ChallanType → Db → Bool
has_challan reservation type db =
    any (is_challan reservation.id type reservation.end_time) db.challans

abbrev pub issue_challan : Reservation → ChallanType → ℕ → Db → Db
issue_challan reservation type amount db = record db {
  challans =
      record {
        reservation_id = reservation.id;
        challan_type = type;
        amount = amount;
        for_checkout_at = reservation.end_time;
      }
      ∷ db.challans;
}

-- `Math.round(hourlyRate * multiplier * 100) / 100`, in cents: halves are rounded up.
abbrev pub overtime_penalty : Config → ℕ → ℕ
overtime_penalty config hourly_rate =
    (2 * (hourly_rate * config.penalty_num) + config.penalty_den) / (2 * config.penalty_den)

-- The writes of `markOvertime`, once this cycle has no OVERTIME challan yet.
flag_overtime : Env → ActiveReservation → Action (Unit {0})
flag_overtime env a = do
  modify (
      issue_challan a.reservation ChallanType.overtime
        (overtime_penalty env.config a.slot.base_price))
  or_throw (← gets (find_reservation a.reservation.id)) Error.record_missing
  modify (set_reservation_status a.reservation.id ReservationStatus.overtime)
  notify_cycle a.reservation.user_id NotificationRecipientRole.user
      NotificationType.vehicle_removal_notice a.reservation
  notify_cycle a.lot.manager_id NotificationRecipientRole.manager
      NotificationType.staff_intervention_required a.reservation
  log a.reservation.id AuditAction.overtime_flagged none

unfoldable pub mark_overtime : Env → ActiveReservation → Action (Unit {0})
unfolding flag_overtime
mark_overtime env a = transaction do
  already_processed ← gets (has_challan a.reservation ChallanType.overtime)
  if already_processed then pure tt else flag_overtime env a

abbrev pub extension_hours : ℕ
extension_hours = 1

abbrev pub extended_end : Reservation → ℕ
extended_end r = r.end_time + minutes_ms (extension_hours * 60)

-- The writes of `extendBooking`, once this cycle has no EXTENSION challan yet.
extend : ActiveReservation → Action (Unit {0})
extend a = do
  modify (issue_challan a.reservation ChallanType.extension (a.slot.base_price * extension_hours))
  or_throw (← gets (find_reservation a.reservation.id)) Error.record_missing
  modify (λ db. record db {
    reservations =
        update_many (λ r. r.id == a.reservation.id)
          (λ r. record r { end_time = extended_end a.reservation }) db.reservations;
  })
  notify_cycle a.reservation.user_id NotificationRecipientRole.user NotificationType.auto_extended
      a.reservation
  notify_cycle a.lot.manager_id NotificationRecipientRole.manager NotificationType.auto_extended
      a.reservation
  log a.reservation.id AuditAction.reservation_auto_extended none

unfoldable pub extend_booking : ActiveReservation → Action (Unit {0})
unfolding extend
extend_booking a = transaction do
  already_processed ← gets (has_challan a.reservation ChallanType.extension)
  if already_processed then pure tt else extend a

-- `where: { slotId, status: CONFIRMED, startTime: { gt: endTime } }`
abbrev pub is_next : Reservation → Reservation → Bool
is_next reservation r =
    r.slot_id == reservation.slot_id
    && is_confirmed r.status
    && ltb reservation.end_time r.start_time

-- `resolveGraceExpiry`. Of the next reservation only its existence is decided on; its id and start
-- go into the text of a notification.
unfoldable pub resolve_grace_expiry : Env → ActiveReservation → Action (Unit {0})
unfolding mark_overtime extend_booking
resolve_grace_expiry env a = do
  queued ← gets (λ db. any (is_next a.reservation) db.reservations)
  if queued then mark_overtime env a else extend_booking a

abbrev when : {A : Type 0} → Bool → Action A → Action (Unit {0})
when true m = m >>= λ _. pure tt
when false m = pure tt

abbrev pub reminder_ms : Config → ℕ
reminder_ms config = minutes_ms config.reminder_offset_minutes

-- `now >= endTimeMs - reminderOffsetMs && now < endTimeMs`
abbrev pub is_reminder_due : Env → Reservation → Bool
is_reminder_due env r = leb r.end_time (env.now + reminder_ms env.config) && ltb env.now r.end_time

abbrev pub is_end_reached : Env → Reservation → Bool
is_end_reached env r = leb r.end_time env.now && ltb env.now (r.end_time + buffer_ms env.config)

abbrev pub is_grace_warning_due : Env → Reservation → Bool
is_grace_warning_due env r =
    leb (r.end_time + reminder_ms env.config) env.now
    && ltb env.now (r.end_time + buffer_ms env.config)

abbrev pub is_grace_over : Env → Reservation → Bool
is_grace_over env r = leb (r.end_time + buffer_ms env.config) env.now

-- A reminder to the customer who is parked.
abbrev pub remind : ActiveReservation → NotificationType → Action Bool
remind a type = notify_cycle a.reservation.user_id NotificationRecipientRole.user type a.reservation

-- The body of the loop of `processActiveBookings`.
unfoldable pub process_booking : Env → ActiveReservation → Action (Unit {0})
unfolding resolve_grace_expiry
process_booking env a = do
  when (is_reminder_due env a.reservation) (remind a NotificationType.checkout_reminder_15min)
  when (is_end_reached env a.reservation) (remind a NotificationType.checkout_time_reached)
  when (is_grace_warning_due env a.reservation) (remind a NotificationType.grace_period_warning)
  when (is_grace_over env a.reservation) (resolve_grace_expiry env a)

-- `processActiveBookings`
unfoldable pub process_active_bookings : Env → Action (Unit {0})
unfolding for_each process_booking join_all
process_active_bookings env = do
  bookings ← gets (λ db. join_all db (find_many (λ r. is_checked_in r.status) db.reservations))
  for_each (process_booking env) bookings

-- The service keeps one flag of its own beside the database.
pub record Monitor : Type 0 where
  pub is_running : Bool
  pub db : Db

-- `monitor`: a tick that finds the flag set does nothing, and `finally` resets the flag.
unfoldable pub monitor : Env → Monitor → Result (Unit {0}) × Monitor
unfolding cancel_no_shows process_active_bookings
monitor env m =
    if m.is_running
    then (ok tt, m)
    else let (r, db') = (cancel_no_shows env >> process_active_bookings env) m.db in
      (r, record { is_running = false; db = db' })

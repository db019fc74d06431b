-- ===== src/Reservations.antt =====
-- backend/src/modules/reservation/reservation.service.ts: booking, cancellation and the settlement
-- of a checkout, method by method. A method is a guard, or a chain of them, before the writes; the
-- rows that a transaction loads are those that its guards leave.
pub mod Progress
pub mod Booking
use smart_parking_management.Prelude.{
  ℕ, ◌+◌, Bool, true, false, not, ◌&&◌, ◌||◌, Option, none, some, List, ◌∷◌, find_first, find_many,
  update_many, any, ltb, leb, ◌==◌,
}
use smart_parking_management.Schema.{
  Db, User, ParkingLot, ParkingSlot, Reservation, Payment, QrCode,
}
use smart_parking_management.Schema.Status.{
  Role, SlotStatus, ReservationStatus, PaymentStatus, QrCodeType, QrCodeStatus, NotificationType,
  NotificationRecipientRole, AuditAction, is_confirmed, is_pending_payment, is_open, is_available,
  is_reserved, is_manager, is_staff, same_qr_type, is_active_code,
}
use smart_parking_management.Action.{
  Action, ok, err, Error, pure, gets, or_throw, throw_if, modify, transaction, ◌>>=◌, ◌>>◌,
}
use smart_parking_management.Environment.{
  Env, Ids, AuthenticatedUser, Config, minutes_ms, days_ms, buffer_ms,
}
use smart_parking_management.Services.{log, notify}
use smart_parking_management.Billing.{calculate_base_charge}
use smart_parking_management.Tables.{
  find_slot, find_lot, find_reservation, lot_is_active, move_slot, any_status,
  set_reservation_status, close_codes, expire_code, use_code, notify_once, update_payment,
  notify_lot_manager, update_slot,
}

pub record CreateReservationDto : Type 0 where
  pub slot_id : ℕ
  pub arrival_time : ℕ
  pub duration_minutes : ℕ

-- The `where` of the overlap check: an open reservation of the slot that begins before `block_end`
-- and ends after `arrival - buffer`. The buffer stands on the other side of the comparison, since
-- subtraction on ℕ stops at 0.
abbrev pub overlaps : ℕ → ℕ → ℕ → ℕ → Reservation → Bool
overlaps slot_id arrival block_end buffer r =
    r.slot_id == slot_id
    && is_open r.status
    && ltb r.start_time block_end
    && ltb arrival (r.end_time + buffer)

abbrev pub expected_checkout : CreateReservationDto → ℕ
expected_checkout dto = dto.arrival_time + minutes_ms dto.duration_minutes

-- The row that a booking creates.
abbrev pub booked_row : Ids → CreateReservationDto → ℕ → ParkingSlot → Reservation
booked_row ids dto user_id slot = record {
  id = ids.reservation_id;
  user_id = user_id;
  lot_id = slot.lot_id;
  slot_id = slot.id;
  start_time = dto.arrival_time;
  end_time = expected_checkout dto;
  total_price = calculate_base_charge slot.base_price dto.duration_minutes;
  status = ReservationStatus.confirmed;
  checked_in_at = none;
  checked_out_at = none;
}

abbrev pub check_in_code : Env → Ids → CreateReservationDto → QrCode
check_in_code env ids dto = record {
  id = ids.qr_id;
  reservation_id = ids.reservation_id;
  qr_type = QrCodeType.check_in;
  token = ids.qr_token;
  status = QrCodeStatus.active;
  expires_at = some (dto.arrival_time + minutes_ms env.config.checkin_grace_minutes);
  used_at = none;
}

-- The body of the transaction of `create`, which returns the reservation and the code's token.
unfoldable pub book : Env → Ids → CreateReservationDto → ℕ → Action (Reservation × ℕ)
book env ids dto user_id = do
  slot ← or_throw (← gets (find_slot dto.slot_id)) Error.slot_not_found
  throw_if (not (lot_is_active (← gets (find_lot slot.lot_id)))) Error.lot_inactive
  let buffer = buffer_ms env.config
  let block_end = expected_checkout dto + buffer
  throw_if
      (← gets (λ db. any (overlaps dto.slot_id dto.arrival_time block_end buffer) db.reservations))
      Error.slot_unavailable
  let reservation = booked_row ids dto user_id slot
  modify (λ db. record db { reservations = reservation ∷ db.reservations })
  modify (move_slot dto.slot_id is_available SlotStatus.reserved)
  modify (λ db. record db { qr_codes = check_in_code env ids dto ∷ db.qr_codes })
  log ids.reservation_id AuditAction.reservation_created (some user_id)
  notify_once user_id NotificationRecipientRole.user NotificationType.reservation_confirmed
      ids.reservation_id
  pure (reservation, ids.qr_token)

abbrev pub latest_allowed_arrival : Env → ℕ
latest_allowed_arrival env = env.start_of_today + days_ms env.config.max_advance_days

-- `ReservationService.create`
unfoldable pub create : Env → Ids → CreateReservationDto → ℕ → Action (Reservation × ℕ)
unfolding book
create env ids dto user_id = do
  throw_if (ltb dto.arrival_time env.now) Error.arrival_in_past
  throw_if (leb (latest_allowed_arrival env) dto.arrival_time) Error.too_far_ahead
  transaction (book env ids dto user_id)

-- `loadOwnedReservation`
load_owned_reservation : ℕ → ℕ → Action Reservation
load_owned_reservation reservation_id user_id = do
  reservation ← or_throw (← gets (find_reservation reservation_id)) Error.reservation_not_found
  throw_if (not (reservation.user_id == user_id)) Error.not_owner
  pure reservation

-- `ReservationService.confirmCheckoutPayment`
unfoldable pub confirm_checkout_payment : Env → ℕ → ℕ → Action Payment
unfolding load_owned_reservation
confirm_checkout_payment env reservation_id user_id = transaction do
  reservation ← load_owned_reservation reservation_id user_id
  throw_if (not (is_pending_payment reservation.status)) Error.not_awaiting_payment
  payment ←
      update_payment reservation_id
        (λ p. record p { status = PaymentStatus.successful; paid_at = some env.now })
  modify (set_reservation_status reservation_id ReservationStatus.completed)
  modify (close_codes reservation_id QrCodeType.check_out (use_code env.now))
  update_slot reservation.slot_id SlotStatus.available
  log reservation_id AuditAction.checkout_payment_confirmed (some user_id)
  notify_once user_id NotificationRecipientRole.user NotificationType.payment_completed
      reservation_id
  notify_once user_id NotificationRecipientRole.user NotificationType.checkout_success
      reservation_id
  notify_lot_manager (← gets (find_lot reservation.lot_id)) reservation_id
  pure payment

-- `ReservationService.failCheckoutPayment`
unfoldable pub fail_checkout_payment : ℕ → ℕ → Action Payment
unfolding load_owned_reservation
fail_checkout_payment reservation_id user_id = transaction do
  reservation ← load_owned_reservation reservation_id user_id
  throw_if (not (is_pending_payment reservation.status)) Error.not_awaiting_payment
  payment ← update_payment reservation_id (λ p. record p { status = PaymentStatus.failed })
  log reservation_id AuditAction.checkout_payment_failed (some user_id)
  pure payment

-- `!isStaff && reservation.userId !== requestingUser.userId`
abbrev pub is_denied : AuthenticatedUser → Reservation → Bool
is_denied requester reservation =
    not (is_staff requester.role) && not (reservation.user_id == requester.user_id)

-- `ReservationService.findOne`
unfoldable pub find_one : ℕ → AuthenticatedUser → Action Reservation
find_one id requester = do
  reservation ← or_throw (← gets (find_reservation id)) Error.reservation_not_found
  throw_if (is_denied requester reservation) Error.access_denied
  pure reservation

-- `ReservationService.findMine`, less the order by time.
unfoldable pub find_my_reservations : ℕ → Db → List Reservation
find_my_reservations user_id db = find_many (λ r. r.user_id == user_id) db.reservations

-- `ReservationService.findByLot`, less the order by creation time.
unfoldable pub find_by_lot : ℕ → AuthenticatedUser → Action (List Reservation)
find_by_lot lot_id requester = do
  lot ← or_throw (← gets (find_lot lot_id)) Error.lot_not_found
  throw_if (is_manager requester.role && not (lot.manager_id == requester.user_id))
      Error.not_lot_manager
  gets (λ db. find_many (λ r. r.lot_id == lot_id) db.reservations)

-- `ReservationService.cancel`
unfoldable pub cancel : ℕ → AuthenticatedUser → Action Reservation
cancel reservation_id requester = transaction do
  reservation ← or_throw (← gets (find_reservation reservation_id)) Error.reservation_not_found
  throw_if (is_denied requester reservation) Error.access_denied
  throw_if (not (is_confirmed reservation.status)) Error.not_confirmed
  modify (set_reservation_status reservation_id ReservationStatus.cancelled)
  modify (move_slot reservation.slot_id is_reserved SlotStatus.available)
  modify (close_codes reservation_id QrCodeType.check_in expire_code)
  log reservation_id AuditAction.reservation_cancelled_by_user (some requester.user_id)
  notify_once reservation.user_id NotificationRecipientRole.user
      NotificationType.reservation_cancelled reservation_id
  or_throw (← gets (find_reservation reservation_id)) Error.record_missing

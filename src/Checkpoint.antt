-- ===== src/Checkpoint.antt =====
-- backend/src/modules/checkpoint/checkpoint.service.ts: a member of staff scans a customer's code to
-- check a vehicle in, or to check it out against the saved card. The pictures of the codes and the
-- message to the customer's browser after the commit are left out.
pub mod Scan
pub mod CheckIn
pub mod CheckOut
pub mod Leaving
pub mod Payments
use smart_parking_management.Prelude.{
  ℕ, ◌+◌, Bool, true, false, not, ◌&&◌, ◌||◌, Option, none, some, List, [], ◌∷◌, find_first,
  update_many, any, ltb, leb, ◌==◌, if◌then◌else◌,
}
use smart_parking_management.Schema.{Db, Text, PaymentMethod, Reservation, Payment, QrCode, Challan}
use smart_parking_management.Schema.Status.{
  SlotStatus, ReservationStatus, PaymentStatus, QrCodeType, QrCodeStatus, NotificationType,
  NotificationRecipientRole, AuditAction, is_confirmed, is_pending_payment, is_checked_in,
  is_overtime, same_qr_type, is_active_code,
}
use smart_parking_management.Action.{
  Action, ok, err, Error, pure, gets, or_throw, throw_if, modify, transaction, ◌>>=◌, ◌>>◌,
}
use smart_parking_management.Environment.{Env, minutes_ms}
use smart_parking_management.Services.{log, notify}
use smart_parking_management.Billing.{calculate_final_charge, challans_of}
use smart_parking_management.Tables.{
  find_slot, find_lot, find_reservation, move_slot, any_status, expire_code, use_code, notify_once,
  notify_lot_manager, update_slot,
}

abbrev pub find_code : ℕ → Db → Option QrCode
find_code token db = find_first (λ code. code.token == token) db.qr_codes

-- `qrCode.update({ where: { id }, data })`
abbrev pub update_code : ℕ → (QrCode → QrCode) → Db → Db
update_code id f db = record db { qr_codes = update_many (λ code. code.id == id) f db.qr_codes }

-- `reservation.update({ where: { id }, data })`
abbrev pub update_reservation : ℕ → (Reservation → Reservation) → Db → Db
update_reservation id f db = record db {
  reservations = update_many (λ r. r.id == id) f db.reservations;
}

-- `expiresAt && expiresAt.getTime() < Date.now()`
abbrev pub is_past : Option ℕ → ℕ → Bool
is_past none now = false
is_past (some at) now = ltb at now

-- Marks a code as expired and throws.
abbrev pub reject_expired : QrCode → Action (QrCode × Reservation)
reject_expired code = do modify (update_code code.id expire_code); λ db. (err Error.qr_expired, db)

-- The code's reservation, which the foreign key makes sure of.
abbrev pub with_reservation : QrCode → Action (QrCode × Reservation)
with_reservation code = do
  reservation ← or_throw (← gets (find_reservation code.reservation_id)) Error.record_missing
  pure (code, reservation)

-- `loadValidQrCode`
unfoldable pub load_valid_qr_code : ℕ → ℕ → QrCodeType → Action (QrCode × Reservation)
load_valid_qr_code now token expected_type = do
  code ← or_throw (← gets (find_code token)) Error.qr_not_recognized
  throw_if (not (same_qr_type code.qr_type expected_type)) Error.wrong_qr_type
  throw_if (not (is_active_code code.status)) Error.qr_used
  if is_past code.expires_at now then reject_expired code else with_reservation code

-- The ids of the check-out code that a check-in creates.
pub record CodeIds : Type 0 where
  pub qr_id : ℕ
  pub qr_token : ℕ

abbrev pub check_out_code : CodeIds → ℕ → QrCode
check_out_code ids reservation_id = record {
  id = ids.qr_id;
  reservation_id = reservation_id;
  qr_type = QrCodeType.check_out;
  token = ids.qr_token;
  status = QrCodeStatus.active;
  expires_at = none;
  used_at = none;
}

-- The writes of a check-in, after its guards.
admit : Env → CodeIds → ℕ → QrCode → Reservation → Action ℕ
admit env ids staff_user_id code reservation = do
  modify (update_code code.id (use_code env.now))
  modify (
      update_reservation reservation.id
        (λ r. record r { status = ReservationStatus.checked_in; checked_in_at = some env.now }))
  update_slot reservation.slot_id SlotStatus.occupied
  modify (λ db. record db { qr_codes = check_out_code ids reservation.id ∷ db.qr_codes })
  log reservation.id AuditAction.checked_in (some staff_user_id)
  notify_once reservation.user_id NotificationRecipientRole.user NotificationType.checkin_success
      reservation.id
  pure ids.qr_token

-- `CheckpointService.checkIn`, which returns the token of the check-out code. The window opens
-- `early` before the start; the test adds `early` to the clock, since subtraction stops at 0.
unfoldable pub check_in : Env → CodeIds → ℕ → ℕ → Action ℕ
unfolding load_valid_qr_code admit
check_in env ids token staff_user_id = transaction do
  loaded ← load_valid_qr_code env.now token QrCodeType.check_in
  let code = loaded.0
  let reservation = loaded.1
  throw_if (not (is_confirmed reservation.status)) Error.not_confirmed
  throw_if (ltb (env.now + minutes_ms env.config.checkin_early_minutes) reservation.start_time)
      Error.too_early
  admit env ids staff_user_id code reservation

abbrev pub find_payment_method : ℕ → Db → Option PaymentMethod
find_payment_method user_id db = find_first (λ m. m.user_id == user_id) db.payment_methods

-- `last4 === '0000'`
abbrev pub is_decline_card : Text → Bool
is_decline_card [] = false
is_decline_card (a ∷ []) = false
is_decline_card (a ∷ b ∷ []) = false
is_decline_card (a ∷ b ∷ c ∷ []) = false
is_decline_card (a ∷ b ∷ c ∷ d ∷ []) = a == b'0' && b == b'0' && c == b'0' && d == b'0'
is_decline_card (a ∷ b ∷ c ∷ d ∷ e ∷ rest) = false

-- No card on file, or a card that ends in 0000.
abbrev pub is_declined : Option PaymentMethod → Bool
is_declined none = true
is_declined (some method) = is_decline_card method.last4

-- The row that the upsert of a payment writes.
abbrev pub payment_row : ℕ → ℕ → ℕ → Bool → Payment
payment_row now reservation_id amount declined = record {
  reservation_id = reservation_id;
  amount = amount;
  status = if declined then PaymentStatus.failed else PaymentStatus.successful;
  paid_at = if declined then none else some now;
}

-- `payment.upsert({ where: { reservationId }, create, update })`: both write all the columns.
pub upsert_payment : Payment → List Payment → List Payment
upsert_payment payment [] = payment ∷ []
upsert_payment payment (p ∷ ps) =
    if p.reservation_id == payment.reservation_id
    then payment ∷ ps
    else p ∷ upsert_payment payment ps

pub record CheckOutResult : Type 0 where
  pub payment : Payment
  pub challans : List Challan
  pub payment_failed : Bool

-- The writes of a check-out whose card was declined.
decline : ℕ → Reservation → Payment → List Challan → Action CheckOutResult
decline staff_user_id reservation payment challans = do
  log reservation.id AuditAction.checkout_payment_declined (some staff_user_id)
  notify_once reservation.user_id NotificationRecipientRole.user NotificationType.payment_declined
      reservation.id
  pure (record { payment = payment; challans = challans; payment_failed = true })

-- The writes of a check-out that was paid.
complete : Env → ℕ → QrCode → Reservation → Payment → List Challan → Action CheckOutResult
complete env staff_user_id code reservation payment challans = do
  modify (
      update_reservation reservation.id
        (λ r. record r { status = ReservationStatus.completed; checked_out_at = some env.now }))
  modify (update_code code.id (use_code env.now))
  update_slot reservation.slot_id SlotStatus.available
  log reservation.id AuditAction.checked_out (some staff_user_id)
  notify_once reservation.user_id NotificationRecipientRole.user NotificationType.payment_completed
      reservation.id
  notify_once reservation.user_id NotificationRecipientRole.user NotificationType.checkout_success
      reservation.id
  notify_lot_manager (← gets (find_lot reservation.lot_id)) reservation.id
  pure (record { payment = payment; challans = challans; payment_failed = false })

-- `CheckpointService.checkOut`
unfoldable pub check_out : Env → ℕ → ℕ → Action CheckOutResult
unfolding load_valid_qr_code upsert_payment decline complete
check_out env token staff_user_id = transaction do
  loaded ← load_valid_qr_code env.now token QrCodeType.check_out
  let code = loaded.0
  let reservation = loaded.1
  throw_if (is_pending_payment reservation.status) Error.checkout_already_initiated
  throw_if (not (is_checked_in reservation.status) && not (is_overtime reservation.status))
      Error.not_checked_in
  total_charge ← calculate_final_charge reservation
  payment_method ← gets (find_payment_method reservation.user_id)
  let declined = is_declined payment_method
  let payment = payment_row env.now reservation.id total_charge declined
  modify (λ db. record db { payments = upsert_payment payment db.payments })
  challans ← gets (λ db. challans_of reservation.id db.challans)
  if declined
      then decline staff_user_id reservation payment challans
      else complete env staff_user_id code reservation payment challans

-- ===== src/Tables.antt =====
-- The queries and writes that several services make alike, each with its Prisma call.
use smart_parking_management.Prelude.{
  [], ◌∷◌, ℕ, Bool, true, false, ◌&&◌, Option, none, some, find_first, update_many, ◌==◌,
}
use smart_parking_management.Schema.{
  Text, Db, ParkingLot, ParkingSlot, Reservation, Payment, QrCode,
}
use smart_parking_management.Schema.Status.{
  SlotStatus, ReservationStatus, QrCodeType, QrCodeStatus, NotificationType,
  NotificationRecipientRole, same_qr_type, is_active_code,
}
use smart_parking_management.Action.{Action, Error, pure, gets, or_throw, modify, ◌>>=◌, ◌>>◌}
use smart_parking_management.Services.{notify}

abbrev pub find_slot : ℕ → Db → Option ParkingSlot
find_slot id db = find_first (λ slot. slot.id == id) db.slots

abbrev pub find_lot : ℕ → Db → Option ParkingLot
find_lot id db = find_first (λ lot. lot.id == id) db.lots

abbrev pub find_reservation : ℕ → Db → Option Reservation
find_reservation id db = find_first (λ r. r.id == id) db.reservations

-- `lot?.isActive`
abbrev pub lot_is_active : Option ParkingLot → Bool
lot_is_active none = false
lot_is_active (some lot) = lot.is_active

-- `parkingSlot.updateMany({ where: { id, status: from }, data: { status: to } })`
abbrev pub move_slot : ℕ → (SlotStatus → Bool) → SlotStatus → Db → Db
move_slot id from to db = record db {
  slots =
      update_many (λ slot. slot.id == id && from slot.status) (λ slot. record slot { status = to })
        db.slots;
}

abbrev pub any_status : SlotStatus → Bool
any_status _ = true

-- `reservation.update({ where: { id }, data: { status } })`
abbrev pub set_reservation_status : ℕ → ReservationStatus → Db → Db
set_reservation_status id status db = record db {
  reservations = update_many (λ r. r.id == id) (λ r. record r { status = status }) db.reservations;
}

-- `qrCode.updateMany({ where: { reservationId, type, status: ACTIVE }, … })`
abbrev pub close_codes : ℕ → QrCodeType → (QrCode → QrCode) → Db → Db
close_codes reservation_id type f db = record db {
  qr_codes =
      update_many
        (λ code.
          code.reservation_id == reservation_id
          && same_qr_type code.qr_type type
          && is_active_code code.status)
        f db.qr_codes;
}

abbrev pub expire_code : QrCode → QrCode
expire_code code = record code { status = QrCodeStatus.expired }

abbrev pub use_code : ℕ → QrCode → QrCode
use_code now code = record code { status = QrCodeStatus.used; used_at = some now }

-- A notification that belongs to no checkout cycle.
abbrev pub notify_once : ℕ → NotificationRecipientRole → NotificationType → ℕ → Action Bool
notify_once recipient role type reservation_id = notify (record {
  recipient_id = recipient;
  recipient_role = role;
  notification_type = type;
  reservation_id = some reservation_id;
  for_checkout_at = none;
})

-- The payment of a reservation, which `payment.update` wants to be there.
abbrev pub find_payment : ℕ → Db → Option Payment
find_payment reservation_id db = find_first (λ p. p.reservation_id == reservation_id) db.payments

-- `payment.update({ where: { reservationId }, data })`, which returns the row that it has written.
abbrev pub update_payment : ℕ → (Payment → Payment) → Action Payment
update_payment reservation_id f = do
  payment ← or_throw (← gets (find_payment reservation_id)) Error.record_missing
  modify (λ db. record db {
    payments = update_many (λ p. p.reservation_id == reservation_id) f db.payments;
  })
  pure (f payment)

-- The notice to the lot's manager that ends a checkout, if the lot is there.
abbrev pub notify_lot_manager : Option ParkingLot → ℕ → Action (Unit {0})
notify_lot_manager none reservation_id = pure tt
notify_lot_manager (some lot) reservation_id =
    notify_once lot.manager_id NotificationRecipientRole.manager NotificationType.checkout_completed
      reservation_id
    >> pure tt

-- `parkingSlot.update({ where: { id }, data: { status } })`
abbrev pub update_slot : ℕ → SlotStatus → Action (Unit {0})
update_slot id status = do
  or_throw (← gets (find_slot id)) Error.record_missing
  modify (move_slot id any_status status)

-- Equality of two text columns.
abbrev pub same_text : Text → Text → Bool
same_text [] [] = true
same_text [] (_ ∷ _) = false
same_text (_ ∷ _) [] = false
same_text (a ∷ s) (b ∷ t) = a == b && same_text s t

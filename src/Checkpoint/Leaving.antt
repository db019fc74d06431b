-- ===== src/Checkpoint/Leaving.antt =====
-- What a scan at the exit comes to, in `CheckpointService.checkOut`: the one payment of the reservation, the
-- reservation, the slot and the code as they are found afterwards.
use smart_parking_management.Prelude.{
  ℕ, ◌+◌, true, false, ◌&&◌, ◌||◌, ◌≡◌, refl, none, some, List, [], ◌∷◌, arith, find_first,
  update_many, ◌==◌, if◌then◌else◌, Bool, ==_refl, ◌∙◌, ap, subst, sym,
}
use smart_parking_management.Schema.{Db, ParkingSlot, Reservation, QrCode, Payment}
use smart_parking_management.Schema.Status.{
  QrCodeType, is_checked_in, is_overtime, SlotStatus, ReservationStatus, PaymentStatus,
}
use smart_parking_management.Environment.{Env}
use smart_parking_management.Tables.{find_slot, find_reservation, find_payment, use_code}
use smart_parking_management.Billing.Charges.{owed, final_charge-owed}
use smart_parking_management.Checkpoint.Scan.{IsScannable, found-id, find_code-use}
use smart_parking_management.Checkpoint.Payments.{find-upsert}
use smart_parking_management.Checkpoint.CheckOut.{
  CanCheckOut, charge, check_out_paid, check_out_declined,
}
use smart_parking_management.Checkpoint.{
  check_out, find_code, find_payment_method, is_declined, upsert_payment,
}

-- A payment of a reservation, over its price and all its challans.
abbrev pub bill : Db → Reservation → Payment
bill db r = record {
  reservation_id = r.id;
  amount = r.total_price + owed r.id db.challans;
  status = PaymentStatus.failed;
  paid_at = none;
}

find_reservation-left :
    (now k : ℕ) (rs : List Reservation) {r : Reservation}
    → find_first (λ x. x.id == k) rs ≡ some r
    → find_first
        (λ x. x.id == k)
        (update_many
          (λ x. x.id == k)
          (λ x. record x { status = ReservationStatus.completed; checked_out_at = some now })
          rs)
      ≡ some (record r { status = ReservationStatus.completed; checked_out_at = some now })
find_reservation-left now k [] h = cc
find_reservation-left now k (x ∷ xs) {r} h = ground (arith, find_reservation-left now k xs {r = r})

find_slot-freed :
    (k : ℕ) (db : Db) (slots : List ParkingSlot) {slot : ParkingSlot}
    → find_first (λ s. s.id == k) slots ≡ some slot
    → find_first
        (λ s. s.id == k)
        (update_many
          (λ s. s.id == k && true)
          (λ s. record s { status = SlotStatus.available })
          slots)
      ≡ some (record slot { status = SlotStatus.available })
find_slot-freed k db [] h = cc
find_slot-freed k db (s ∷ ss) {slot} h = ground (arith, find_slot-freed k db ss {slot = slot})

module _ (env : Env) (token staff : ℕ) (db : Db) (code : QrCode) (r : Reservation) where
  charge-bill :
      (declined : Bool)
      → is_declined (find_payment_method r.user_id db) ≡ declined
      → charge env r db ≡ record (bill db r) {
        status = if declined then PaymentStatus.failed else PaymentStatus.successful;
        paid_at = if declined then none else some env.now;
      }
  charge-bill declined e = rw (e, final_charge-owed r db.challans) refl

  find-charge :
      (ps : List Payment)
      → ps ≡ upsert_payment (charge env r db) db.payments
      → find_first (λ p. p.reservation_id == r.id) ps ≡ some (charge env r db)
  find-charge ps e =
      let here = ==_refl r.id in
      let found = find-upsert r.id (charge env r db) db.payments in rw e (ground (arith, found))

  find-others :
      (ps : List Payment) (k : ℕ)
      → ps ≡ upsert_payment (charge env r db) db.payments
      → (r.id == k) ≡ false
      → find_first (λ p. p.reservation_id == k) ps
        ≡ find_first (λ p. p.reservation_id == k) db.payments
  find-others ps k e other =
      let found = find-upsert k (charge env r db) db.payments in rw e (ground (arith, found))

  -- A check-out that can be made and whose card is accepted: the reservation's payment is then one that
  -- was paid now, of the price of the booking and the sum of the challans of the reservation, and every
  -- other reservation has the payment that it had; the reservation is found completed and checked out
  -- now, its slot is found available, and the code is found used.
  pub check_out_charges :
      CanCheckOut env token db code r
      → is_declined (find_payment_method r.user_id db) ≡ false
      → let db' = (check_out env token staff db).1 in
        (find_payment r.id db'
          ≡ some (record (bill db r) { status = PaymentStatus.successful; paid_at = some env.now }))
        × ((k : ℕ) → (r.id == k) ≡ false → find_payment k db' ≡ find_payment k db)
        × (find_reservation r.id db'
            ≡ some
                (record r { status = ReservationStatus.completed; checked_out_at = some env.now }))
        × ((slot : ParkingSlot)
            → find_slot r.slot_id db ≡ some slot
            → find_slot r.slot_id db' ≡ some (record slot { status = SlotStatus.available }))
        × (find_code token db' ≡ some (use_code env.now code))
  check_out_charges c accepted =
      let (_, payments, rows, slots, codes) = check_out_paid env token staff db code r c accepted in
      let s = c.scannable in
      let is_bill = charge-bill false accepted in
      let stored : find_reservation r.id db ≡ some r =
        subst (λ k. find_reservation k db ≡ some r)
          (sym (found-id code.reservation_id db s.reservation_found)) s.reservation_found in
      (
        find-charge _ payments ∙ ap some is_bill,
        λ k other. find-others _ k payments other,
        rw rows (find_reservation-left env.now r.id db.reservations stored),
        λ slot found. rw slots (find_slot-freed r.slot_id db db.slots found),
        rw codes (find_code-use token env.now code db.qr_codes s.code_found),
      )

  -- A check-out of a parked vehicle, with a code that is valid, whose card is declined or that finds no
  -- card: the reservation's payment is then a failed one, of the price of the booking and the sum of the
  -- challans of the reservation, and every other reservation has the payment that it had; the
  -- reservations, the slots and the codes are as they were.
  pub check_out_records_failure :
      IsScannable env.now token QrCodeType.check_out db code r
      → (is_checked_in r.status || is_overtime r.status) ≡ true
      → is_declined (find_payment_method r.user_id db) ≡ true
      → let db' = (check_out env token staff db).1 in
        (find_payment r.id db' ≡ some (bill db r))
        × ((k : ℕ) → (r.id == k) ≡ false → find_payment k db' ≡ find_payment k db)
        × (db'.reservations ≡ db.reservations)
        × (db'.slots ≡ db.slots)
        × (db'.qr_codes ≡ db.qr_codes)
  check_out_records_failure s parked declined =
      let (_, payments, rows, slots, codes) =
        check_out_declined env token staff db code r s parked declined in
      let is_bill = charge-bill true declined in
      (
        find-charge _ payments ∙ ap some is_bill,
        λ k other. find-others _ k payments other,
        rows,
        slots,
        codes,
      )

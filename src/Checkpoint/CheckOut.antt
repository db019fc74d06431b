-- ===== src/Checkpoint/CheckOut.antt =====
-- `CheckpointService.checkOut`: what it writes, when it is paid, declined and refused, and that a code
-- that was paid with is refused while its row stays as the scan left it. What the writes come to is in
-- Leaving.
use smart_parking_management.Prelude.{
  ℕ, true, false, ◌||◌, ◌≡◌, refl, some, List, arith, find_first, update_many, Forall₂,
  Option-cases, Bool-cases, inl, inr, ◌==◌, ◌∙◌, ap,
}
use smart_parking_management.Schema.{Db, ParkingSlot, Reservation, QrCode, Payment, PaymentMethod}
use smart_parking_management.Schema.Status.{
  QrCodeType, is_checked_in, is_overtime, is_active_code, same_qr_type, SlotStatus,
  ReservationStatus,
}
use smart_parking_management.Action.{Error, Result-cases, ok, err, Succeeds}
use smart_parking_management.Environment.{Env}
use smart_parking_management.Billing.{final_charge, challans_of}
use smart_parking_management.Tables.{find_slot, use_code, move_slot, any_status}
use smart_parking_management.Lifecycle.{Progress, Distinct, All-Progress-refl, update-Progress}
use smart_parking_management.Checkpoint.Scan.{
  IsScannable, load-IsScannable, found-id, find_code-use,
}
use smart_parking_management.Checkpoint.{
  CheckOutResult, load_valid_qr_code, find_code, is_past, find_payment_method, is_declined,
  payment_row, upsert_payment, check_out,
}

-- What a check-out needs.
pub record CanCheckOut (env : Env) (token : ℕ) (db : Db) (code : QrCode) (r : Reservation)
    : Type 0 where
  pub scannable : IsScannable env.now token QrCodeType.check_out db code r
  pub is_parked : (is_checked_in r.status || is_overtime r.status) ≡ true
  pub slot : ParkingSlot
  pub slot_found : find_slot r.slot_id db ≡ some slot

abbrev pub left_at : ℕ → Reservation → Reservation
left_at now r = record r { status = ReservationStatus.completed; checked_out_at = some now }

-- The payment that a check-out writes.
abbrev pub charge : Env → Reservation → Db → Payment
charge env r db =
    payment_row env.now r.id (final_charge r db.challans)
      (is_declined (find_payment_method r.user_id db))

abbrev pub check_out_result : Env → Reservation → Db → CheckOutResult
check_out_result env r db = record {
  payment = charge env r db;
  challans = challans_of r.id db.challans;
  payment_failed = is_declined (find_payment_method r.user_id db);
}

module _ (env : Env) (token staff : ℕ) (db : Db) where
  -- What a check-out writes that can be made and whose card is accepted.
  pub check_out_paid :
      (code : QrCode) (r : Reservation)
      → CanCheckOut env token db code r
      → is_declined (find_payment_method r.user_id db) ≡ false
      → ((check_out env token staff db).0 ≡ ok (check_out_result env r db))
        × ((check_out env token staff db).1.payments ≡ upsert_payment (charge env r db) db.payments)
        × ((check_out env token staff db).1.reservations
            ≡ update_many (λ x. x.id == r.id) (left_at env.now) db.reservations)
        × ((check_out env token staff db).1.slots
            ≡ (move_slot r.slot_id any_status SlotStatus.available db).slots)
        × ((check_out env token staff db).1.qr_codes
            ≡ update_many (λ c. c.id == code.id) (use_code env.now) db.qr_codes)
  unfolding check_out
  check_out_paid code r c accepted = let s = c.scannable in ground arith

  -- What a check-out of a parked vehicle writes, with a code that is valid, whose card is declined or
  -- that finds no card.
  pub check_out_declined :
      (code : QrCode) (r : Reservation)
      → IsScannable env.now token QrCodeType.check_out db code r
      → (is_checked_in r.status || is_overtime r.status) ≡ true
      → is_declined (find_payment_method r.user_id db) ≡ true
      → ((check_out env token staff db).0 ≡ ok (check_out_result env r db))
        × ((check_out env token staff db).1.payments ≡ upsert_payment (charge env r db) db.payments)
        × ((check_out env token staff db).1.reservations ≡ db.reservations)
        × ((check_out env token staff db).1.slots ≡ db.slots)
        × ((check_out env token staff db).1.qr_codes ≡ db.qr_codes)
  unfolding check_out
  check_out_declined code r s parked declined = ground arith

  check_out-loads :
      Succeeds (check_out env token staff db).0
      → Succeeds (load_valid_qr_code env.now token QrCodeType.check_out db).0
  unfolding check_out
  check_out-loads h = ground arith

  check_out-parked :
      (code : QrCode) (r : Reservation)
      → IsScannable env.now token QrCodeType.check_out db code r
      → Succeeds (check_out env token staff db).0
      → (is_checked_in r.status || is_overtime r.status) ≡ true
  unfolding check_out
  check_out-parked code r s h = ground arith

  check_out-slot :
      (code : QrCode) (r : Reservation)
      → IsScannable env.now token QrCodeType.check_out db code r
      → is_declined (find_payment_method r.user_id db) ≡ false
      → Succeeds (check_out env token staff db).0
      → (slot : ParkingSlot) × (find_slot r.slot_id db ≡ some slot)
  unfolding check_out
  check_out-slot code r s accepted h = elim (Option-cases (find_slot r.slot_id db)) [
    | inl missing ↦ absurd (ground arith)
    | inr found ↦ found
  ]

  -- A scan that is refused leaves the database as it was.
  pub check_out_refused :
      (e : Error) → (check_out env token staff db).0 ≡ err e → (check_out env token staff db).1 ≡ db
  unfolding check_out
  check_out_refused e h = ground arith

left_at-Progress :
    (now : ℕ) (r : Reservation)
    → (is_checked_in r.status || is_overtime r.status) ≡ true
    → Progress r (left_at now r)
left_at-Progress now r h = ground arith

module _ (env : Env) (token staff : ℕ) (db : Db) where
  pub check_out-CanCheckOut :
      (code : QrCode) (r : Reservation)
      → IsScannable env.now token QrCodeType.check_out db code r
      → is_declined (find_payment_method r.user_id db) ≡ false
      → Succeeds (check_out env token staff db).0
      → CanCheckOut env token db code r
  check_out-CanCheckOut code r s accepted h =
      let (slot, slot_found) = check_out-slot env token staff db code r s accepted h in
      record {
        scannable = s;
        is_parked = check_out-parked env token staff db code r s h;
        slot = slot;
        slot_found = slot_found;
      }

  -- A scan at the exit, paid, declined or refused, changes no reservation but along an edge of its
  -- life, if ids are unique.
  pub check_out-Progress :
      Distinct db.reservations
      → Forall₂ Progress db.reservations (check_out env token staff db).1.reservations
  check_out-Progress d = elim (Result-cases (check_out env token staff db).0) [
    | inr (e, refused) ↦
        rw (check_out_refused env token staff db e refused) (All-Progress-refl db.reservations)
    | inl done ↦
        let (code, r, s) =
          load-IsScannable env.now token QrCodeType.check_out db
            (check_out-loads env token staff db done) in
        let parked = check_out-parked env token staff db code r s done in
        let found = s.reservation_found in
        elim (Bool-cases (is_declined (find_payment_method r.user_id db))) [
          | inl declined ↦
              rw (check_out_declined env token staff db code r s parked declined).2
                (All-Progress-refl db.reservations)
          | inr accepted ↦
              rw
                (check_out_paid env token staff db code r
                  (check_out-CanCheckOut code r s accepted done) accepted).2
                (update-Progress r.id (left_at env.now) db.reservations r d
                  (rw (found-id code.reservation_id db found) found)
                  (left_at-Progress env.now r parked))
        ]
  ]

used_code_refused :
    (env : Env) (token staff : ℕ) (db : Db) (code : QrCode)
    → find_code token db ≡ some code
    → same_qr_type code.qr_type QrCodeType.check_out ≡ true
    → is_active_code code.status ≡ false
    → check_out env token staff db ≡ (err Error.qr_used, db)
unfolding check_out
used_code_refused env token staff db code e t u = ground arith

-- A check-out code that was paid with is refused as used when it is scanned at the exit again, whoever
-- scans it and whenever: in any later database, whatever else has changed in it, in which the token still
-- leads to the row that the check-out left; and the refused scan changes nothing, so it charges nothing.
pub check_out_once :
    (env later : Env) (token staff other : ℕ) (db then_db : Db) (code : QrCode) (r : Reservation)
    → CanCheckOut env token db code r
    → is_declined (find_payment_method r.user_id db) ≡ false
    → find_code token then_db ≡ find_code token (check_out env token staff db).1
    → check_out later token other then_db ≡ (err Error.qr_used, then_db)
check_out_once env later token staff other db then_db code r c accepted same =
    let codes = (check_out_paid env token staff db code r c accepted).4 in
    let found = find_code-use token env.now code db.qr_codes c.scannable.code_found in
    let row : find_code token (check_out env token staff db).1 ≡ some (use_code env.now code) =
      rw codes found in
    used_code_refused later token other then_db (use_code env.now code) (same ∙ row)
      c.scannable.right_type refl

-- After a decline the customer mends the card, and the same code is scanned again: if the new card
-- is accepted and the code has not expired by then, the reservation is charged what it then owes
-- and completes.
pub check_out_retry :
    (env later : Env) (token staff other : ℕ) (db : Db) (methods : List PaymentMethod)
    (code : QrCode) (r : Reservation)
    → CanCheckOut env token db code r
    → is_declined (find_payment_method r.user_id db) ≡ true
    → is_past code.expires_at later.now ≡ false
    → is_declined (find_first (λ m. m.user_id == r.user_id) methods) ≡ false
    → let db' = record (check_out env token staff db).1 { payment_methods = methods } in
      ((check_out later token other db').0 ≡ ok (check_out_result later r db'))
      × ((check_out later token other db').1.reservations
          ≡ update_many (λ x. x.id == r.id) (left_at later.now) db.reservations)
check_out_retry env later token staff other db methods code r c declined fresh mended =
    let (_, _, rs, ss, qs) =
      check_out_declined env token staff db code r c.scannable c.is_parked declined in
    let s = c.scannable in
    let again : CanCheckOut later token
        (record (check_out env token staff db).1 { payment_methods = methods }) code r =
      record {
        scannable = record {
          code_found = rw qs s.code_found;
          right_type = s.right_type;
          unused = s.unused;
          not_expired = fresh;
          reservation_found = rw rs s.reservation_found;
        };
        is_parked = c.is_parked;
        slot = c.slot;
        slot_found = rw ss c.slot_found;
      } in
    let paid =
      check_out_paid later token other
        (record (check_out env token staff db).1 { payment_methods = methods }) code r again
        mended in
    (paid.0, paid.2 ∙ ap (update_many (λ x. x.id == r.id) (left_at later.now)) rs)

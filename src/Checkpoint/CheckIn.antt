-- ===== src/Checkpoint/CheckIn.antt =====
-- `CheckpointService.checkIn`: when a scan admits a vehicle, what it changes, and that the code that
-- admitted a vehicle is refused while its row stays as the scan left it.
use smart_parking_management.Prelude.{
  ℕ, ◌+◌, true, false, ◌≡◌, ◌≢◌, refl, some, ◌∷◌, arith, ltb, update_many, Forall₂, Option-cases,
  inl, inr, ◌==◌, ◌∙◌,
}
use smart_parking_management.Schema.{Db, ParkingSlot, Reservation, QrCode}
use smart_parking_management.Schema.Status.{
  QrCodeType, is_confirmed, is_active_code, same_qr_type, SlotStatus, ReservationStatus,
}
use smart_parking_management.Action.{Error, Result-cases, ok, err, Succeeds}
use smart_parking_management.Environment.{Env, minutes_ms}
use smart_parking_management.Tables.{find_slot, use_code, move_slot, any_status}
use smart_parking_management.Lifecycle.{Progress, Distinct, All-Progress-refl, update-Progress}
use smart_parking_management.Checkpoint.Scan.{
  IsScannable, load-IsScannable, found-id, find_code-use,
}
use smart_parking_management.Checkpoint.{
  load_valid_qr_code, CodeIds, find_code, is_past, check_out_code, check_in,
}

-- What a check-in needs.
pub record CanCheckIn (env : Env) (token : ℕ) (db : Db) (code : QrCode) (r : Reservation)
    : Type 0 where
  pub scannable : IsScannable env.now token QrCodeType.check_in db code r
  pub is_awaited : is_confirmed r.status ≡ true
  pub window_open : ltb (env.now + minutes_ms env.config.checkin_early_minutes) r.start_time ≡ false
  pub slot : ParkingSlot
  pub slot_found : find_slot r.slot_id db ≡ some slot

abbrev pub parked : ℕ → Reservation → Reservation
parked now r = record r { status = ReservationStatus.checked_in; checked_in_at = some now }

module _ (env : Env) (ids : CodeIds) (token staff : ℕ) (db : Db) where
  -- A check-in that can be made marks the reservation, takes the slot, uses up the code, and returns
  -- the token of a new check-out code.
  pub CanCheckIn-check_in :
      (code : QrCode) (r : Reservation)
      → CanCheckIn env token db code r
      → ((check_in env ids token staff db).0 ≡ ok ids.qr_token)
        × ((check_in env ids token staff db).1.reservations
            ≡ update_many (λ x. x.id == r.id) (parked env.now) db.reservations)
        × ((check_in env ids token staff db).1.slots
            ≡ (move_slot r.slot_id any_status SlotStatus.occupied db).slots)
        × ((check_in env ids token staff db).1.qr_codes
            ≡ check_out_code ids r.id
              ∷ update_many (λ c. c.id == code.id) (use_code env.now) db.qr_codes)
  unfolding check_in
  CanCheckIn-check_in code r c = let s = c.scannable in ground arith

  pub check_in_keeps :
      ((check_in env ids token staff db).1.challans ≡ db.challans)
      × ((check_in env ids token staff db).1.payment_methods ≡ db.payment_methods)
  unfolding check_in
  check_in_keeps = ground arith

  check_in-loads :
      Succeeds (check_in env ids token staff db).0
      → Succeeds (load_valid_qr_code env.now token QrCodeType.check_in db).0
  unfolding check_in
  check_in-loads h = ground arith

  check_in-guards :
      (code : QrCode) (r : Reservation)
      → IsScannable env.now token QrCodeType.check_in db code r
      → Succeeds (check_in env ids token staff db).0
      → (is_confirmed r.status ≡ true)
        × (ltb (env.now + minutes_ms env.config.checkin_early_minutes) r.start_time ≡ false)
  unfolding check_in
  check_in-guards code r s h = ground arith

  check_in-slot :
      (code : QrCode) (r : Reservation)
      → IsScannable env.now token QrCodeType.check_in db code r
      → Succeeds (check_in env ids token staff db).0
      → (slot : ParkingSlot) × (find_slot r.slot_id db ≡ some slot)
  unfolding check_in
  check_in-slot code r s h = elim (Option-cases (find_slot r.slot_id db)) [
    | inl missing ↦ absurd (ground arith)
    | inr found ↦ found
  ]

  -- A check-in is made only if it can be made.
  pub check_in-CanCheckIn :
      Succeeds (check_in env ids token staff db).0
      → (code : QrCode) × (r : Reservation) × CanCheckIn env token db code r
  check_in-CanCheckIn h =
      let (code, r, s) = load-IsScannable env.now token QrCodeType.check_in db (check_in-loads h) in
      let (is_awaited, window_open) = check_in-guards code r s h in
      let (slot, slot_found) = check_in-slot code r s h in
      (
        code,
        r,
        record {
          scannable = s;
          is_awaited = is_awaited;
          window_open = window_open;
          slot = slot;
          slot_found = slot_found;
        },
      )

  -- A scan that is refused leaves the database as it was.
  pub check_in_refused :
      (e : Error)
      → (check_in env ids token staff db).0 ≡ err e
      → (check_in env ids token staff db).1 ≡ db
  unfolding check_in
  check_in_refused e h = ground arith

  -- A code that has expired is refused, and the database is as it was.
  pub check_in_expired :
      (code : QrCode)
      → find_code token db ≡ some code
      → same_qr_type code.qr_type QrCodeType.check_in ≡ true
      → is_active_code code.status ≡ true
      → is_past code.expires_at env.now ≡ true
      → (check_in env ids token staff db ≡ (err Error.qr_expired, db))
  unfolding check_in
  check_in_expired code e t a x = ground arith

used_code_refused :
    (env : Env) (ids : CodeIds) (token staff : ℕ) (db : Db) (code : QrCode)
    → find_code token db ≡ some code
    → same_qr_type code.qr_type QrCodeType.check_in ≡ true
    → is_active_code code.status ≡ false
    → check_in env ids token staff db ≡ (err Error.qr_used, db)
unfolding check_in
used_code_refused env ids token staff db code e t u = ground arith

parked-Progress :
    (now : ℕ) (r : Reservation) → is_confirmed r.status ≡ true → Progress r (parked now r)
parked-Progress now r h = ground arith

-- A scan at the entrance, accepted or refused, changes no reservation but along an edge of its life,
-- if ids are unique.
pub check_in-Progress :
    (env : Env) (ids : CodeIds) (token staff : ℕ) (db : Db)
    → Distinct db.reservations
    → Forall₂ Progress db.reservations (check_in env ids token staff db).1.reservations
check_in-Progress env ids token staff db d =
    elim (Result-cases (check_in env ids token staff db).0) [
      | inr (e, refused) ↦
          rw (check_in_refused env ids token staff db e refused) (All-Progress-refl db.reservations)
      | inl done ↦
          let (code, r, c) = check_in-CanCheckIn env ids token staff db done in
          let found = c.scannable.reservation_found in
          rw (CanCheckIn-check_in env ids token staff db code r c).1 (
            update-Progress r.id (parked env.now) db.reservations r d
              (rw (found-id code.reservation_id db found) found)
              (parked-Progress env.now r c.is_awaited))
    ]

-- A code that has admitted a vehicle is refused as used when it is scanned at the entrance again,
-- whoever scans it and whenever, if the check-out code was given another token: in any later database,
-- whatever else has changed in it, in which the token still leads to the row that the check-in left, and
-- the refused scan changes nothing.
pub check_in_once :
    (env later : Env) (ids again : CodeIds) (token staff other : ℕ) (db then_db : Db)
    → ids.qr_token ≢ token
    → Succeeds (check_in env ids token staff db).0
    → find_code token then_db ≡ find_code token (check_in env ids token staff db).1
    → check_in later again token other then_db ≡ (err Error.qr_used, then_db)
check_in_once env later ids again token staff other db then_db ne h same =
    let (code, r, c) = check_in-CanCheckIn env ids token staff db h in
    let codes = (CanCheckIn-check_in env ids token staff db code r c).3 in
    let found = find_code-use token env.now code db.qr_codes c.scannable.code_found in
    let row : find_code token (check_in env ids token staff db).1 ≡ some (use_code env.now code) =
      rw codes (ground (arith, found)) in
    used_code_refused later again token other then_db (use_code env.now code) (same ∙ row)
      c.scannable.right_type refl

-- ===== src/Reservations/Booking.antt =====
-- `ReservationService.create`: when a booking is accepted, and what it does to the bookings of a slot.
use smart_parking_management.Prelude.{
  ℕ, ◌+◌, ◌≤◌, ◌<◌, true, false, ◌≡◌, ◌≢◌, ◌⊎◌, refl, some, List, [], ◌∷◌, arith, find_first-holds,
  any, All, ltb, leb, inl, inr, ==_sound,
}
use smart_parking_management.Schema.{Db, ParkingSlot, Reservation}
use smart_parking_management.Schema.Status.{SlotStatus, is_open, is_available}
use smart_parking_management.Environment.{Env, Ids, buffer_ms}
use smart_parking_management.Action.{Error, ok, err, Succeeds, Result-cases}
use smart_parking_management.Tables.{find_slot, find_lot, lot_is_active, move_slot}
use smart_parking_management.Lifecycle.{Apart, NoDoubleBooking}
use smart_parking_management.Reservations.{
  CreateReservationDto, expected_checkout, overlaps, booked_row, check_in_code,
  latest_allowed_arrival, create,
}

-- No open reservation of the slot comes within the buffer of the interval from arrival to checkout.
abbrev pub IsFree : ℕ → ℕ → ℕ → ℕ → List Reservation → Type 0
IsFree slot_id arrival checkout buffer = All (λ r.
    slot_id ≡ r.slot_id
    → is_open r.status ≡ true
    → (checkout + buffer ≤ r.start_time) ⊎ (r.end_time + buffer ≤ arrival))

pub any-overlaps-IsFree :
    (slot_id arrival checkout buffer : ℕ) (rs : List Reservation)
    → any (overlaps slot_id arrival (checkout + buffer) buffer) rs ≡ false
    → IsFree slot_id arrival checkout buffer rs
any-overlaps-IsFree slot_id arrival checkout buffer [] h = tt
any-overlaps-IsFree slot_id arrival checkout buffer (r ∷ rs) h =
    (λ e o. ground arith, any-overlaps-IsFree slot_id arrival checkout buffer rs (ground arith))

pub IsFree-any-overlaps :
    (slot_id arrival checkout buffer : ℕ) (rs : List Reservation)
    → IsFree slot_id arrival checkout buffer rs
    → any (overlaps slot_id arrival (checkout + buffer) buffer) rs ≡ false
IsFree-any-overlaps slot_id arrival checkout buffer [] h = refl
IsFree-any-overlaps slot_id arrival checkout buffer (r ∷ rs) h =
    ground (arith, h.0, IsFree-any-overlaps slot_id arrival checkout buffer rs h.1)

-- What a booking needs.
pub record CanBook (env : Env) (dto : CreateReservationDto) (db : Db) : Type 0 where
  pub not_past : env.now ≤ dto.arrival_time
  pub not_too_far : dto.arrival_time < latest_allowed_arrival env
  pub slot : ParkingSlot
  pub slot_found : find_slot dto.slot_id db ≡ some slot
  pub lot_open : lot_is_active (find_lot slot.lot_id db) ≡ true
  pub is_free :
      IsFree dto.slot_id dto.arrival_time
        (expected_checkout dto)
        (buffer_ms env.config)
        db.reservations

-- The guards of the code, as it tests them.
record Guards (env : Env) (dto : CreateReservationDto) (db : Db) (slot : ParkingSlot) : Type 0 where
  not_past : ltb dto.arrival_time env.now ≡ false
  not_too_far : leb (latest_allowed_arrival env) dto.arrival_time ≡ false
  lot_open : lot_is_active (find_lot slot.lot_id db) ≡ true
  not_overlapping :
      any
        (overlaps dto.slot_id dto.arrival_time
          (expected_checkout dto + buffer_ms env.config)
          (buffer_ms env.config))
        db.reservations
      ≡ false

CanBook-Guards :
    {env : Env} {dto : CreateReservationDto} {db : Db} (c : CanBook env dto db)
    → Guards env dto db c.slot
CanBook-Guards {env} {dto} {db} c = record {
  not_past = let h = c.not_past in ground arith;
  not_too_far = let h = c.not_too_far in ground arith;
  lot_open = c.lot_open;
  not_overlapping =
      IsFree-any-overlaps dto.slot_id dto.arrival_time (expected_checkout dto)
        (buffer_ms env.config) db.reservations c.is_free;
}

module _ (env : Env) (ids : Ids) (dto : CreateReservationDto) (user : ℕ) (db : Db) where
  -- A booking that can be made is made: the new row is added, and the call returns it with the
  -- token of its check-in code.
  pub CanBook-create :
      (c : CanBook env dto db)
      → ((create env ids dto user db).0 ≡ ok (booked_row ids dto user c.slot, ids.qr_token))
        × ((create env ids dto user db).1.reservations
            ≡ booked_row ids dto user c.slot ∷ db.reservations)
  unfolding create
  CanBook-create c = let g = CanBook-Guards c in ground arith

  -- The other tables after a booking that can be made: the check-in code is added, and the slot is
  -- marked as reserved if it was available.
  pub CanBook-create-tables :
      (c : CanBook env dto db)
      → let db' = (create env ids dto user db).1 in
        (db'.qr_codes ≡ check_in_code env ids dto ∷ db.qr_codes)
        × (db'.slots ≡ (move_slot dto.slot_id is_available SlotStatus.reserved db).slots)
        × (db'.challans ≡ db.challans)
        × (db'.payment_methods ≡ db.payment_methods)
  unfolding create
  CanBook-create-tables c = let g = CanBook-Guards c in ground arith

  create-Guards :
      (slot : ParkingSlot)
      → find_slot dto.slot_id db ≡ some slot
      → Succeeds (create env ids dto user db).0
      → Guards env dto db slot
  unfolding create
  create-Guards slot e h = ground arith

  create-slot :
      Succeeds (create env ids dto user db).0
      → (slot : ParkingSlot) × (find_slot dto.slot_id db ≡ some slot)
  unfolding create
  create-slot h = ground arith

  -- A booking is made only if it can be made.
  pub create-CanBook : Succeeds (create env ids dto user db).0 → CanBook env dto db
  create-CanBook h =
      let (slot, e) = create-slot h in
      let g = create-Guards slot e h in
      record {
        not_past = let p = g.not_past in ground arith;
        not_too_far = let p = g.not_too_far in ground arith;
        slot = slot;
        slot_found = e;
        lot_open = g.lot_open;
        is_free =
            any-overlaps-IsFree dto.slot_id dto.arrival_time (expected_checkout dto)
              (buffer_ms env.config) db.reservations g.not_overlapping;
      }

  -- A booking that is refused leaves the database as it was.
  pub create_refused :
      (e : Error) → (create env ids dto user db).0 ≡ err e → (create env ids dto user db).1 ≡ db
  unfolding create
  create_refused e h = ground arith

IsFree-Apart :
    (new : Reservation) (buffer : ℕ) (rs : List Reservation)
    → All (λ r. new.id ≢ r.id) rs
    → IsFree new.slot_id new.start_time new.end_time buffer rs
    → All (Apart buffer new) rs
IsFree-Apart new buffer [] fresh free = tt
IsFree-Apart new buffer (r ∷ rs) fresh free =
    ((fresh.0, λ same _ o. free.0 same o), IsFree-Apart new buffer rs fresh.1 free.1)

-- Whether it is accepted or refused, a request to book leaves no slot booked twice, if the database
-- generates an id that no reservation has.
pub create-NoDoubleBooking :
    (env : Env) (ids : Ids) (dto : CreateReservationDto) (user : ℕ) (db : Db)
    → All (λ r. ids.reservation_id ≢ r.id) db.reservations
    → NoDoubleBooking (buffer_ms env.config) db.reservations
    → NoDoubleBooking (buffer_ms env.config) (create env ids dto user db).1.reservations
create-NoDoubleBooking env ids dto user db fresh h =
    elim (Result-cases (create env ids dto user db).0) [
      | inr (e, refused) ↦ rw (create_refused env ids dto user db e refused) h
      | inl done ↦
          let c = create-CanBook env ids dto user db done in
          let same_slot =
            ==_sound c.slot.id dto.slot_id (find_first-holds _ db.slots c.slot_found) in
          rw (CanBook-create env ids dto user db c).1 (
            IsFree-Apart (booked_row ids dto user c.slot) _ db.reservations fresh
                (rw same_slot c.is_free),
            h,
          )
    ]

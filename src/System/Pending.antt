-- ===== src/System/Pending.antt =====
-- The status PENDING_PAYMENT, which confirmCheckoutPayment and failCheckoutPayment of
-- reservation.service.ts wait for: no step of System gives it to a reservation.
use smart_parking_management.Prelude.{
  ◌<◌, ℕ, Bool, false, ◌≡◌, some, List, [], ◌∷◌, All, Forall₂, arith, update_many, inl, inr,
  find_first, ◌==◌,
}
use smart_parking_management.Schema.{Db, Reservation}
use smart_parking_management.Schema.Status.{is_pending_payment}
use smart_parking_management.Action.{err, Result-cases}
use smart_parking_management.Environment.{Env, Ids, Config, buffer_ms}
use smart_parking_management.Lifecycle.{
  Progress, NoDoubleBooking, NoDoubleBooking-Distinct, All-kept,
}
use smart_parking_management.Reservations.{
  CreateReservationDto, create, confirm_checkout_payment, fail_checkout_payment,
}
use smart_parking_management.Reservations.Booking.{CanBook-create, create-CanBook, create_refused}
use smart_parking_management.Reservations.Progress.{
  cancel-Progress, confirm_checkout_payment-Progress, fail_checkout_payment-reservations,
  settle_error, settle_refused,
}
use smart_parking_management.Checkpoint.CheckIn.{check_in-Progress}
use smart_parking_management.Checkpoint.CheckOut.{check_out-Progress}
use smart_parking_management.Users.Blocking.{block-Progress}
use smart_parking_management.Users.Links.{remove_self-reservations, remove_manager-reservations}
use smart_parking_management.Sweeps.{cancelled_row}
use smart_parking_management.Monitoring.NoShows.{cancel_no_show-rows}
use smart_parking_management.Monitoring.Grace.{overtime_row, extended_row}
use smart_parking_management.Monitoring.Overlap.{resolve_grace_expiry-rows}
use smart_parking_management.System.{
  Step, creates, cancels, settles, fails, checks_in, checks_out, blocks, deletes_account,
  deletes_manager, cancels_no_show, resolves, Reach, here, next, Reach-NoDoubleBooking,
}

abbrev pub NonePending : List Reservation → Type 0
NonePending = All (λ r. is_pending_payment r.status ≡ false)

NonePending-Progress :
    (xs ys : List Reservation) → Forall₂ Progress xs ys → NonePending xs → NonePending ys
NonePending-Progress [] [] ps h = tt
NonePending-Progress [] (y ∷ ys) ps h = elim ps [ ]
NonePending-Progress (x ∷ xs) [] ps h = elim ps [ ]
NonePending-Progress (x ∷ xs) (y ∷ ys) ps h =
    (still x y ps.0 h.0, NonePending-Progress xs ys ps.1 h.1)
  where
    still :
        (a b : Reservation)
        → Progress a b
        → is_pending_payment a.status ≡ false
        → is_pending_payment b.status ≡ false
    still a b p n = ground arith

NonePending-update :
    (p : Reservation → Bool) (f : Reservation → Reservation)
    → ((r : Reservation)
        → is_pending_payment r.status ≡ false
        → is_pending_payment (f r).status ≡ false)
    → (rs : List Reservation) → NonePending rs
    → NonePending (update_many p f rs)
NonePending-update p f keep [] h = tt
NonePending-update p f keep (r ∷ rs) h =
    (ground (arith, keep r h.0), NonePending-update p f keep rs h.1)

create-NonePending :
    (env : Env) (ids : Ids) (dto : CreateReservationDto) (user : ℕ) (db : Db)
    → NonePending db.reservations
    → NonePending (create env ids dto user db).1.reservations
create-NonePending env ids dto user db h = elim (Result-cases (create env ids dto user db).0) [
  | inr (e, refused) ↦ rw (create_refused env ids dto user db e refused) h
  | inl done ↦
      rw (CanBook-create env ids dto user db (create-CanBook env ids dto user db done)).1
        (ground arith, h)
]

Step-NonePending :
    {config : Config} {db db' : Db}
    → Step config db db'
    → NoDoubleBooking (buffer_ms config) db.reservations
    → NonePending db.reservations
    → NonePending db'.reservations
Step-NonePending (creates env ids dto user db same fresh) d h =
    create-NonePending env ids dto user db h
Step-NonePending {config} (cancels id u db) d h =
    NonePending-Progress db.reservations _
      (cancel-Progress id u db (NoDoubleBooking-Distinct (buffer_ms config) db.reservations d)) h
Step-NonePending {config} (settles env id user db) d h =
    NonePending-Progress db.reservations _
      (confirm_checkout_payment-Progress env id user db
        (NoDoubleBooking-Distinct (buffer_ms config) db.reservations d))
      h
Step-NonePending (fails id user db) d h = rw (fail_checkout_payment-reservations id user db) h
Step-NonePending {config} (checks_in env ids token staff db) d h =
    NonePending-Progress db.reservations _
      (check_in-Progress env ids token staff db
        (NoDoubleBooking-Distinct (buffer_ms config) db.reservations d))
      h
Step-NonePending {config} (checks_out env token staff db) d h =
    NonePending-Progress db.reservations _
      (check_out-Progress env token staff db
        (NoDoubleBooking-Distinct (buffer_ms config) db.reservations d))
      h
Step-NonePending {config} (blocks id requester db) d h =
    NonePending-Progress db.reservations _
      (block-Progress id requester db
        (NoDoubleBooking-Distinct (buffer_ms config) db.reservations d))
      h
Step-NonePending (deletes_account id db) d h = elim (remove_self-reservations id db) [
  | inl same ↦ rw same h
  | inr fewer ↦ rw fewer (All-kept _ _ db.reservations h)
]
Step-NonePending (deletes_manager id requester db) d h =
    elim (remove_manager-reservations id requester db) [
      | inl same ↦ rw same h
      | inr fewer ↦ rw fewer (All-kept _ _ db.reservations h)
    ]
Step-NonePending (cancels_no_show stale db) d h = elim (cancel_no_show-rows stale db) [
  | inl same ↦ rw same h
  | inr closed ↦
      rw closed (NonePending-update _ cancelled_row (λ r n. ground arith) db.reservations h)
]
Step-NonePending (resolves env a db same found parked alone) d h =
    elim (resolve_grace_expiry-rows env a db a.reservation found) [
      | inl unchanged ↦ rw unchanged h
      | inr (inl flagged) ↦
          rw flagged (NonePending-update _ overtime_row (λ r n. ground arith) db.reservations h)
      | inr (inr extended) ↦
          rw extended
            (NonePending-update _ (extended_row a.reservation) (λ r n. n) db.reservations h)
    ]

Reach-NonePending :
    {config : Config} {start db : Db}
    → 0 < buffer_ms config
    → NoDoubleBooking (buffer_ms config) start.reservations
    → NonePending start.reservations
    → Reach config start db
    → NonePending db.reservations
Reach-NonePending pos d h here = h
Reach-NonePending pos d h (next r st) =
    Step-NonePending st (Reach-NoDoubleBooking pos d r) (Reach-NonePending pos d h r)

find-NonePending :
    (id : ℕ) (rs : List Reservation) {r : Reservation}
    → NonePending rs
    → find_first (λ x. x.id == id) rs ≡ some r
    → is_pending_payment r.status ≡ false
find-NonePending id [] h e = cc
find-NonePending id (x ∷ xs) {r} h e = ground (arith, h.0, find-NonePending id xs {r = r} h.1)

-- From a database with no reservation that awaits payment, and no slot booked twice, the steps of System
-- lead to none that has one, if the buffer is not 0, and under what the steps ask for: each call is one
-- step, new reservations get new ids, the settings do not change, and the job ends the grace period only
-- of a vehicle that it has just read as parked and that is alone in its slot. In a database reached so
-- the two settlement calls are refused and change nothing.
pub settle_unreachable :
    {config : Config} {start db : Db} (env : Env) (id user : ℕ)
    → 0 < buffer_ms config
    → NoDoubleBooking (buffer_ms config) start.reservations
    → NonePending start.reservations
    → Reach config start db
    → NonePending db.reservations
      × (confirm_checkout_payment env id user db ≡ (err (settle_error id user db), db))
      × (fail_checkout_payment id user db ≡ (err (settle_error id user db), db))
settle_unreachable {db = db} env id user pos d h r =
    let none_pending = Reach-NonePending pos d h r in
    let (c, c_error, f, f_error) =
      settle_refused env id user db λ x e. find-NonePending id db.reservations none_pending e in
    (none_pending, ground arith, ground arith)

-- ===== src/System.antt =====
-- The services together: each call that writes reservations, of a client or of the monitoring job, as one
-- step of the database, in any order. That a call runs as one step is an assumption: the code locks the
-- rows that it reads in some of its transactions only. The job's sweeps are a step for each reservation,
-- so that other calls may come between two of them. The sweep of no-shows may have read its
-- reservation at any time before its step. The end of a grace period is one step with the reading of its
-- reservation and with the search for the next booking, which the code makes before the transaction that
-- extends: a booking that is made between the search and that transaction is not in this model.
pub mod Pending
pub mod Journey
pub mod Deletions
use smart_parking_management.Prelude.{
  ℕ, ◌<◌, Bool, true, false, ◌≡◌, ◌≢◌, refl, Option, none, some, List, [], ◌∷◌, All, Forall₂, arith,
  update_many, inl, inr, subst, if◌then◌else◌,
}
use smart_parking_management.Schema.{Db, Reservation}
use smart_parking_management.Schema.Status.{is_checked_in, is_pending_payment}
use smart_parking_management.Action.{err}
use smart_parking_management.Environment.{Env, Ids, Config, AuthenticatedUser, buffer_ms}
use smart_parking_management.Tables.{find_reservation}
use smart_parking_management.Lifecycle.{
  NoDoubleBooking, NoDoubleBooking-Distinct, NoDoubleBooking-Progress, NoDoubleBooking-Keeps,
  NoDoubleBooking-find_many, Progress, Distinct,
}
use smart_parking_management.Reservations.{
  CreateReservationDto, create, cancel, confirm_checkout_payment, fail_checkout_payment,
}
use smart_parking_management.Reservations.Booking.{create-NoDoubleBooking}
use smart_parking_management.Reservations.Progress.{
  cancel-Progress, confirm_checkout_payment-Progress, fail_checkout_payment-reservations,
  settle_error, settle_refused,
}
use smart_parking_management.Checkpoint.{CodeIds, check_in, check_out}
use smart_parking_management.Checkpoint.CheckIn.{check_in-Progress}
use smart_parking_management.Checkpoint.CheckOut.{check_out-Progress}
use smart_parking_management.Users.{block}
use smart_parking_management.Users.Blocking.{block-Progress}
use smart_parking_management.Users.Deletion.{remove_self, remove_manager}
use smart_parking_management.Users.Links.{remove_self-reservations, remove_manager-reservations}
use smart_parking_management.Monitoring.{ActiveReservation, cancel_no_show, resolve_grace_expiry}
use smart_parking_management.Monitoring.NoShows.{cancel_no_show-Keeps}
use smart_parking_management.Monitoring.Overlap.{
  IsAloneInSlot, resolve_grace_expiry-NoDoubleBooking,
}

-- One call, under settings that do not change.
pub data Step (config : Config) : Db → Db → Type 0 where
  creates :
      (env : Env) (ids : Ids) (dto : CreateReservationDto) (user : ℕ) (db : Db)
      → env.config ≡ config
      → All (λ r. ids.reservation_id ≢ r.id) db.reservations
      → Step config db (create env ids dto user db).1
  cancels : (id : ℕ) (u : AuthenticatedUser) (db : Db) → Step config db (cancel id u db).1
  settles :
      (env : Env) (id user : ℕ) (db : Db)
      → Step config db (confirm_checkout_payment env id user db).1
  fails : (id user : ℕ) (db : Db) → Step config db (fail_checkout_payment id user db).1
  checks_in :
      (env : Env) (ids : CodeIds) (token staff : ℕ) (db : Db)
      → Step config db (check_in env ids token staff db).1
  checks_out :
      (env : Env) (token staff : ℕ) (db : Db) → Step config db (check_out env token staff db).1
  blocks : (id requester : ℕ) (db : Db) → Step config db (block id requester db).1
  deletes_account : (id : ℕ) (db : Db) → Step config db (remove_self id db).1
  deletes_manager : (id requester : ℕ) (db : Db) → Step config db (remove_manager id requester db).1
  -- The sweep may have read the reservation at any time before.
  cancels_no_show : (stale : Reservation) (db : Db) → Step config db (cancel_no_show stale db).1
  -- The job has just read the reservation, no other vehicle has been checked in to its slot, and nothing
  -- comes between the job's search for the next booking and its writes.
  resolves :
      (env : Env) (a : ActiveReservation) (db : Db)
      → env.config ≡ config
      → find_reservation a.reservation.id db ≡ some a.reservation
      → is_checked_in a.reservation.status ≡ true
      → IsAloneInSlot a.reservation db.reservations
      → Step config db (resolve_grace_expiry env a db).1

pub data Reach (config : Config) (start : Db) : Db → Type 0 where
  here : Reach config start start
  next : {db db' : Db} → Reach config start db → Step config db db' → Reach config start db'

Step-NoDoubleBooking :
    {config : Config} {db db' : Db}
    → 0 < buffer_ms config
    → Step config db db'
    → NoDoubleBooking (buffer_ms config) db.reservations
    → NoDoubleBooking (buffer_ms config) db'.reservations
Step-NoDoubleBooking pos (creates env ids dto user db same fresh) h =
    rw (← same) (create-NoDoubleBooking env ids dto user db fresh (rw same h))
Step-NoDoubleBooking {config} pos (cancels id u db) h =
    let d = NoDoubleBooking-Distinct (buffer_ms config) db.reservations h in
    NoDoubleBooking-Progress (buffer_ms config) db.reservations _ (cancel-Progress id u db d) h
Step-NoDoubleBooking {config} pos (settles env id user db) h =
    let d = NoDoubleBooking-Distinct (buffer_ms config) db.reservations h in
    NoDoubleBooking-Progress (buffer_ms config) db.reservations _
      (confirm_checkout_payment-Progress env id user db d) h
Step-NoDoubleBooking pos (fails id user db) h = rw (fail_checkout_payment-reservations id user db) h
Step-NoDoubleBooking {config} pos (checks_in env ids token staff db) h =
    let d = NoDoubleBooking-Distinct (buffer_ms config) db.reservations h in
    NoDoubleBooking-Progress (buffer_ms config) db.reservations _
      (check_in-Progress env ids token staff db d) h
Step-NoDoubleBooking {config} pos (checks_out env token staff db) h =
    let d = NoDoubleBooking-Distinct (buffer_ms config) db.reservations h in
    NoDoubleBooking-Progress (buffer_ms config) db.reservations _
      (check_out-Progress env token staff db d) h
Step-NoDoubleBooking {config} pos (blocks id requester db) h =
    let d = NoDoubleBooking-Distinct (buffer_ms config) db.reservations h in
    NoDoubleBooking-Progress (buffer_ms config) db.reservations _ (block-Progress id requester db d)
      h
Step-NoDoubleBooking {config} pos (deletes_account id db) h =
    elim (remove_self-reservations id db) [
      | inl same ↦ rw same h
      | inr fewer ↦ rw fewer (NoDoubleBooking-find_many (buffer_ms config) _ db.reservations h)
    ]
Step-NoDoubleBooking {config} pos (deletes_manager id requester db) h =
    elim (remove_manager-reservations id requester db) [
      | inl same ↦ rw same h
      | inr fewer ↦ rw fewer (NoDoubleBooking-find_many (buffer_ms config) _ db.reservations h)
    ]
Step-NoDoubleBooking {config} pos (cancels_no_show stale db) h =
    NoDoubleBooking-Keeps (buffer_ms config) db.reservations _ (cancel_no_show-Keeps stale db) h
Step-NoDoubleBooking pos (resolves env a db same found parked alone) h =
    rw (← same)
      (resolve_grace_expiry-NoDoubleBooking env a db (rw same pos) found parked alone (rw same h))

-- However bookings, cancellations, scans, payments, blockings, deletions of accounts and the job's calls
-- follow one another, each as one step, no slot is booked twice, the buffer included, if none was at the
-- start, the buffer is not 0, every new reservation gets a new id, the settings do not change, the job
-- ends the grace period only of a vehicle that it has just read as parked and that is alone in its slot,
-- and no booking is made between the job's search for the next booking and the extension.
pub Reach-NoDoubleBooking :
    {config : Config} {start db : Db}
    → 0 < buffer_ms config
    → NoDoubleBooking (buffer_ms config) start.reservations
    → Reach config start db
    → NoDoubleBooking (buffer_ms config) db.reservations
Reach-NoDoubleBooking pos h here = h
Reach-NoDoubleBooking pos h (next r st) =
    Step-NoDoubleBooking pos st (Reach-NoDoubleBooking pos h r)

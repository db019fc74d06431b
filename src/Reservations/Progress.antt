-- ===== src/Reservations/Progress.antt =====
-- The methods of reservation.service.ts other than `create` against the edges of the life of a
-- reservation, and what their refusals leave.
use smart_parking_management.Prelude.{
  ℕ, true, false, ◌≡◌, none, some, arith, Forall₂, Option-cases, inl, inr, ◌==◌, if◌then◌else◌,
}
use smart_parking_management.Schema.{Db, Reservation}
use smart_parking_management.Schema.Status.{is_confirmed, is_pending_payment, cancelled, completed}
use smart_parking_management.Environment.{Env, AuthenticatedUser}
use smart_parking_management.Action.{Error, err}
use smart_parking_management.Tables.{find_reservation}
use smart_parking_management.Lifecycle.{Progress, Distinct, All-Progress-refl, update-Progress}
use smart_parking_management.Reservations.{cancel, confirm_checkout_payment, fail_checkout_payment}

-- What a settlement is refused with, when the reservation awaits none.
abbrev pub settle_error : ℕ → ℕ → Db → Error
settle_error id user db = elim (find_reservation id db) [
  | none ↦ Error.reservation_not_found
  | some r ↦ if r.user_id == user then Error.not_awaiting_payment else Error.not_owner
]

cancelled-Progress :
    (r : Reservation) → is_confirmed r.status ≡ true → Progress r (record r { status = cancelled })
cancelled-Progress r h = ground arith

-- A cancellation, accepted or refused, changes no reservation but along an edge of its life, if ids
-- are unique: whatever is not awaited any more is never cancelled.
pub cancel-Progress :
    (id : ℕ) (u : AuthenticatedUser) (db : Db)
    → Distinct db.reservations
    → Forall₂ Progress db.reservations (cancel id u db).1.reservations
unfolding cancel
cancel-Progress id u db d = elim (Option-cases (find_reservation id db)) [
  | inl missing ↦ ground (arith, All-Progress-refl db.reservations)
  | inr (r, e) ↦ ground (
    arith,
    All-Progress-refl db.reservations,
    cancelled-Progress r,
    update-Progress id (λ (x : Reservation). record x { status = cancelled }) db.reservations r d e,
  )
]

completed-Progress :
    (r : Reservation)
    → is_pending_payment r.status ≡ true
    → Progress r (record r { status = completed })
completed-Progress r h = ground arith

pub confirm_checkout_payment-Progress :
    (env : Env) (id user : ℕ) (db : Db)
    → Distinct db.reservations
    → Forall₂ Progress db.reservations (confirm_checkout_payment env id user db).1.reservations
unfolding confirm_checkout_payment
confirm_checkout_payment-Progress env id user db d = elim (Option-cases (find_reservation id db)) [
  | inl missing ↦ ground (arith, All-Progress-refl db.reservations)
  | inr (r, e) ↦ ground (
    arith,
    All-Progress-refl db.reservations,
    completed-Progress r,
    update-Progress id (λ (x : Reservation). record x { status = completed }) db.reservations r d e,
  )
]

-- A failed payment leaves every reservation as it was.
pub fail_checkout_payment-reservations :
    (id user : ℕ) (db : Db) → (fail_checkout_payment id user db).1.reservations ≡ db.reservations
unfolding fail_checkout_payment
fail_checkout_payment-reservations id user db = ground arith

-- A reservation that is not awaiting payment can be neither settled nor marked as unpaid: the call
-- changes nothing and says so, or says that it is missing or another customer's.
pub settle_refused :
    (env : Env) (id user : ℕ) (db : Db)
    → ((r : Reservation) → find_reservation id db ≡ some r → is_pending_payment r.status ≡ false)
    → ((confirm_checkout_payment env id user db).1 ≡ db)
      × ((confirm_checkout_payment env id user db).0 ≡ err (settle_error id user db))
      × ((fail_checkout_payment id user db).1 ≡ db)
      × ((fail_checkout_payment id user db).0 ≡ err (settle_error id user db))
unfolding confirm_checkout_payment fail_checkout_payment
settle_refused env id user db h = elim (Option-cases (find_reservation id db)) [
  | inl missing ↦ ground arith
  | inr (r, e) ↦ ground (arith, h r e)
]

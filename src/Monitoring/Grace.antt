-- ===== src/Monitoring/Grace.antt =====
-- What the end of the grace period does, in reservation-monitoring.service.ts: the branches of
-- `resolveGraceExpiry` and what each writes.
use native.Mathlib.Nat.{div-add-mod, mod-lt}
use smart_parking_management.Prelude.{
  ℕ, ◌+◌, ◌*◌, ◌/◌, ◌≤◌, ◌<◌, true, false, ◌≡◌, refl, none, some, arith, ◌==◌, if◌then◌else◌,
  update_many, Bool-cases, Option-cases, inl, inr, ==_refl,
}
use smart_parking_management.Schema.{Db, Reservation}
use smart_parking_management.Schema.Status.{ReservationStatus, ChallanType, same_challan_type}
use smart_parking_management.Action.{ok, err, Error, Succeeds}
use smart_parking_management.Environment.{Env, Config}
use smart_parking_management.Billing.{final_charge}
use smart_parking_management.Billing.Charges.{final_charge-cons}
use smart_parking_management.Tables.{find_reservation}
use smart_parking_management.Monitoring.{
  ActiveReservation, has_challan, overtime_penalty, mark_overtime, extend_booking, extended_end,
  extension_hours, issue_challan,
}

is_challan_refl :
    (r : Reservation) (type : ChallanType) (amount : ℕ) (db : Db)
    → same_challan_type type type ≡ true
    → has_challan r type (issue_challan r type amount db) ≡ true
is_challan_refl r type amount db h = rw (==_refl r.id) (rw h (rw (==_refl r.end_time)))

abbrev pub overtime_row : Reservation → Reservation
overtime_row r = record r { status = ReservationStatus.overtime }

abbrev pub extended_row : Reservation → Reservation → Reservation
extended_row a r = record r { end_time = extended_end a }

module _ (env : Env) (a : ActiveReservation) (db : Db) where
  abbrev pub penalty : ℕ
  penalty = overtime_penalty env.config a.slot.base_price

  -- A cycle that has its OVERTIME challan already is left alone.
  pub mark_overtime_done :
      has_challan a.reservation ChallanType.overtime db ≡ true
      → mark_overtime env a db ≡ (ok tt, db)
  unfolding mark_overtime
  mark_overtime_done h = ground arith

  pub mark_overtime_new :
      (r : Reservation)
      → has_challan a.reservation ChallanType.overtime db ≡ false
      → find_reservation a.reservation.id db ≡ some r
      → ((mark_overtime env a db).0 ≡ ok tt)
        × ((mark_overtime env a db).1.challans
            ≡ (issue_challan a.reservation ChallanType.overtime penalty db).challans)
        × ((mark_overtime env a db).1.reservations
            ≡ update_many (λ x. x.id == a.reservation.id) overtime_row db.reservations)
  unfolding mark_overtime
  mark_overtime_new r h e = ground arith

  pub mark_overtime_missing :
      has_challan a.reservation ChallanType.overtime db ≡ false
      → find_reservation a.reservation.id db ≡ none
      → mark_overtime env a db ≡ (err Error.record_missing, db)
  unfolding mark_overtime
  mark_overtime_missing h e = ground arith

module _ (a : ActiveReservation) (db : Db) where
  pub extend_done :
      has_challan a.reservation ChallanType.extension db ≡ true → extend_booking a db ≡ (ok tt, db)
  unfolding extend_booking
  extend_done h = ground arith

  pub extend_new :
      (r : Reservation)
      → has_challan a.reservation ChallanType.extension db ≡ false
      → find_reservation a.reservation.id db ≡ some r
      → ((extend_booking a db).0 ≡ ok tt)
        × ((extend_booking a db).1.challans
            ≡ (issue_challan a.reservation ChallanType.extension
                (a.slot.base_price * extension_hours)
                db).challans)
        × ((extend_booking a db).1.reservations
            ≡ update_many
                (λ x. x.id == a.reservation.id)
                (extended_row a.reservation)
                db.reservations)
  unfolding extend_booking
  extend_new r h e = ground arith

  pub extend_missing :
      has_challan a.reservation ChallanType.extension db ≡ false
      → find_reservation a.reservation.id db ≡ none
      → extend_booking a db ≡ (err Error.record_missing, db)
  unfolding extend_booking
  extend_missing h e = ground arith

-- After a cycle was flagged, flagging it again, at a later tick, does nothing: no second penalty,
-- and no second notification or audit entry.
pub mark_overtime_again :
    (env later : Env) (a : ActiveReservation) (db : Db)
    → Succeeds (mark_overtime env a db).0
    → mark_overtime later a (mark_overtime env a db).1 ≡ (ok tt, (mark_overtime env a db).1)
mark_overtime_again env later a db h =
    elim (Bool-cases (has_challan a.reservation ChallanType.overtime db)) [
      | inl old ↦ rw (mark_overtime_done env a db old) (mark_overtime_done later a db old)
      | inr new ↦ elim (Option-cases (find_reservation a.reservation.id db)) [
        | inl missing ↦ absurd (rw (mark_overtime_missing env a db new missing) at h)
        | inr (r, e) ↦ mark_overtime_done later a (mark_overtime env a db).1 (
            rw (mark_overtime_new env a db r new e).1
              (is_challan_refl a.reservation ChallanType.overtime (penalty env a db) db refl))
      ]
    ]

-- After a cycle was extended, extending it again does nothing: no second charge and no second hour.
pub extend_booking_again :
    (a : ActiveReservation) (db : Db)
    → Succeeds (extend_booking a db).0
    → extend_booking a (extend_booking a db).1 ≡ (ok tt, (extend_booking a db).1)
extend_booking_again a db h =
    elim (Bool-cases (has_challan a.reservation ChallanType.extension db)) [
      | inl old ↦ rw (extend_done a db old) (extend_done a db old)
      | inr new ↦ elim (Option-cases (find_reservation a.reservation.id db)) [
        | inl missing ↦ absurd (rw (extend_missing a db new missing) at h)
        | inr (r, e) ↦ extend_done a (extend_booking a db).1 (
            rw (extend_new a db r new e).1 (
              is_challan_refl a.reservation ChallanType.extension
                (a.slot.base_price * extension_hours) db refl))
      ]
    ]

-- An extension of a reservation that is there, in a cycle that has none yet, adds one hour of the
-- slot's rate to what the reservation owes at checkout, and nothing to what any other reservation
-- owes.
pub extend_booking_charges :
    (a : ActiveReservation) (db : Db) (r other : Reservation)
    → has_challan a.reservation ChallanType.extension db ≡ false
    → find_reservation a.reservation.id db ≡ some r
    → final_charge other (extend_booking a db).1.challans
      ≡ (if a.reservation.id == other.id then a.slot.base_price else 0)
        + final_charge other db.challans
extend_booking_charges a db r other new e =
    rw (extend_new a db r new e).1 (rw final_charge-cons (ground arith))

round_bounds :
    (x den : ℕ)
    → 0 < den
    → (x < 2 * ((x + den) / (2 * den) * den) + den) × (2 * ((x + den) / (2 * den) * den) ≤ x + den)
round_bounds x den pos =
    omega (arith, div-add-mod (x + den) (2 * den), mod-lt (x + den) {m = 2 * den} (omega arith))

-- The penalty is the rate times the multiplier, rounded to the nearest cent, halves up, if the
-- multiplier's denominator is not 0.
pub overtime_penalty_rounds :
    (config : Config) (rate : ℕ)
    → 0 < config.penalty_den
    → (2 * (rate * config.penalty_num)
        < 2 * (overtime_penalty config rate * config.penalty_den) + config.penalty_den)
      × (2 * (overtime_penalty config rate * config.penalty_den)
          ≤ 2 * (rate * config.penalty_num) + config.penalty_den)
overtime_penalty_rounds config rate pos =
    round_bounds (2 * (rate * config.penalty_num)) config.penalty_den pos

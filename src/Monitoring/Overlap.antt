-- ===== src/Monitoring/Overlap.antt =====
-- Whether the end of a grace period, in reservation-monitoring.service.ts, keeps the slots free of
-- double bookings. An extension looks for CONFIRMED reservations only, before its transaction; here that
-- search and the transaction are one step.
use smart_parking_management.Prelude.{
  ℕ, ◌<◌, true, false, ◌≡◌, ◌≢◌, sym, some, List, [], ◌∷◌, arith, ◌==◌, any, if◌then◌else◌,
  find_first, update_many, All, Forall₂, Bool-cases, inl, inr, ==_sound, ◌∙◌, subst, ap, ◌⊎◌,
}
use smart_parking_management.Schema.{Db, Reservation}
use smart_parking_management.Schema.Status.{ChallanType, is_checked_in, is_confirmed, is_open}
use smart_parking_management.Action.{Result}
use smart_parking_management.Environment.{Env, buffer_ms}
use smart_parking_management.Tables.{find_reservation}
use smart_parking_management.Lifecycle.{
  Apart, NoDoubleBooking, NoDoubleBooking-Distinct, NoDoubleBooking-Progress, Progress, Distinct,
  All-Progress-refl, update-Progress,
}
use smart_parking_management.Monitoring.{
  ActiveReservation, has_challan, mark_overtime, extend_booking, is_next, resolve_grace_expiry,
}
use smart_parking_management.Monitoring.Grace.{
  extended_row, overtime_row, mark_overtime_done, mark_overtime_new, extend_done, extend_new,
}

-- Of the open reservations of the slot, the parked one is the only one that has begun.
abbrev pub IsAloneInSlot : Reservation → List Reservation → Type 0
IsAloneInSlot a = All (λ r.
    r.id ≢ a.id → r.slot_id ≡ a.slot_id → is_open r.status ≡ true → is_confirmed r.status ≡ true)

abbrev rows_of : Result (Unit {0}) × Db → List Reservation
rows_of result = result.1.reservations

resolve_queued :
    (env : Env) (a : ActiveReservation) (db : Db)
    → any (is_next a.reservation) db.reservations ≡ true
    → resolve_grace_expiry env a db ≡ mark_overtime env a db
unfolding resolve_grace_expiry
resolve_queued env a db h = rw h

pub resolve_unqueued :
    (env : Env) (a : ActiveReservation) (db : Db)
    → any (is_next a.reservation) db.reservations ≡ false
    → resolve_grace_expiry env a db ≡ extend_booking a db
unfolding resolve_grace_expiry
resolve_unqueued env a db h = rw h

overtime-Progress : (r : Reservation) → is_checked_in r.status ≡ true → Progress r (overtime_row r)
overtime-Progress r h = ground arith

pub mark_overtime-Progress :
    (env : Env) (a : ActiveReservation) (db : Db) (r : Reservation)
    → Distinct db.reservations
    → find_reservation a.reservation.id db ≡ some r
    → is_checked_in r.status ≡ true
    → Forall₂ Progress db.reservations (mark_overtime env a db).1.reservations
mark_overtime-Progress env a db r d e h =
    elim (Bool-cases (has_challan a.reservation ChallanType.overtime db)) [
      | inl old ↦ rw (mark_overtime_done env a db old) (All-Progress-refl db.reservations)
      | inr new ↦ rw (mark_overtime_new env a db r new e).2 (
          update-Progress a.reservation.id overtime_row db.reservations r d e
            (overtime-Progress r h))
    ]

module _ (buffer : ℕ) (a : Reservation) (pos : 0 < buffer) (open_a : is_open a.status ≡ true) where
  abbrev extended : Reservation → Reservation
  extended r = if r.id == a.id then extended_row a r else r

  -- What is known of each row when the booking of `a` is extended.
  record Facts (r : Reservation) : Type 0 where
    only_a : r.id ≡ a.id → r ≡ a
    alone :
        r.id ≢ a.id → r.slot_id ≡ a.slot_id → is_open r.status ≡ true → is_confirmed r.status ≡ true
    not_next : is_next a r ≡ false

  Apart-extended_row :
      (y : Reservation) → Facts y → Apart buffer a y → Apart buffer (extended_row a a) y
  Apart-extended_row y g h = (
    h.0,
    λ same _ open_y.
        let confirmed = g.alone (λ e. h.0 (sym e)) (sym same) open_y in
        let apart = h.1 same open_a open_y in let behind = g.not_next in ground arith,
  )

  Apart-sym : (x y : Reservation) → Apart buffer x y → Apart buffer y x
  Apart-sym x y h =
      (λ e. h.0 (sym e), λ same oy ox. let apart = h.1 (sym same) ox oy in omega arith)

  Apart-extended :
      (x y : Reservation)
      → Facts x
      → Facts y
      → Apart buffer x y
      → Apart buffer (extended x) (extended y)
  Apart-extended x y f g h = elim (Bool-cases (x.id == a.id)) [
    | inl x_is_a ↦ elim (Bool-cases (y.id == a.id)) [
      | inl y_is_a ↦ absurd (h.0 (==_sound x.id a.id x_is_a ∙ sym (==_sound y.id a.id y_is_a)))
      | inr y_not_a ↦
          let e = f.only_a (==_sound x.id a.id x_is_a) in
          rw (x_is_a, y_not_a)
            (subst (λ z. Apart buffer (extended_row a z) y) (sym e)
              (Apart-extended_row y g (subst (λ z. Apart buffer z y) e h)))
    ]
    | inr x_not_a ↦ elim (Bool-cases (y.id == a.id)) [
      | inl y_is_a ↦
          let e = g.only_a (==_sound y.id a.id y_is_a) in
          rw (x_not_a, y_is_a)
            (subst (λ z. Apart buffer x (extended_row a z)) (sym e)
              (Apart-sym (extended_row a a) x
                (Apart-extended_row x f (Apart-sym x a (subst (λ z. Apart buffer x z) e h)))))
      | inr y_not_a ↦ rw (x_not_a, y_not_a) h
    ]
  ]

  All-Apart-extended :
      (x : Reservation) (ys : List Reservation)
      → Facts x
      → All Facts ys
      → All (Apart buffer x) ys
      → All (Apart buffer (extended x)) (update_many (λ r. r.id == a.id) (extended_row a) ys)
  All-Apart-extended x [] f fs h = tt
  All-Apart-extended x (y ∷ ys) f fs h =
      (Apart-extended x y f fs.0 h.0, All-Apart-extended x ys f fs.1 h.1)

  extended-NoDoubleBooking :
      (rs : List Reservation)
      → All Facts rs
      → NoDoubleBooking buffer rs
      → NoDoubleBooking buffer (update_many (λ r. r.id == a.id) (extended_row a) rs)
  extended-NoDoubleBooking [] fs h = tt
  extended-NoDoubleBooking (x ∷ xs) fs h =
      (All-Apart-extended x xs fs.0 fs.1 h.0, extended-NoDoubleBooking xs fs.1 h.1)

  -- The first row with an id is the only one.
  All-only : (rs : List Reservation) → All (λ b. a.id ≢ b.id) rs → All (λ r. r.id ≡ a.id → r ≡ a) rs
  All-only [] h = tt
  All-only (r ∷ rs) h = (λ e. absurd (h.0 (sym e)), All-only rs h.1)

  find-only :
      (rs : List Reservation)
      → Distinct rs
      → find_first (λ r. r.id == a.id) rs ≡ some a
      → All (λ r. r.id ≡ a.id → r ≡ a) rs
  find-only [] d e = tt
  find-only (x ∷ xs) d e = elim (Bool-cases (x.id == a.id)) [
    | inl here ↦
        let same : x ≡ a = ground arith in
        (λ _. same, All-only xs (subst (λ z. All (λ b. z.id ≢ b.id) xs) same d.0))
    | inr there ↦ (λ same. absurd (ground arith), find-only xs d.1 (rw there at e))
  ]

  All-Facts :
      (rs : List Reservation)
      → All (λ r. r.id ≡ a.id → r ≡ a) rs
      → IsAloneInSlot a rs
      → any (is_next a) rs ≡ false
      → All Facts rs
  All-Facts [] os hs n = tt
  All-Facts (r ∷ rs) os hs n = (
    record { only_a = os.0; alone = hs.0; not_next = ground arith },
    All-Facts rs os.1 hs.1 (ground arith),
  )

-- The end of a grace period leaves no slot booked twice, extension included, if none was before,
-- the buffer is not 0, the reservation is checked in and as the job has read it, and of the open
-- reservations of its slot it is the only one that has begun.
pub resolve_grace_expiry-NoDoubleBooking :
    (env : Env) (a : ActiveReservation) (db : Db)
    → 0 < buffer_ms env.config
    → find_reservation a.reservation.id db ≡ some a.reservation
    → is_checked_in a.reservation.status ≡ true
    → IsAloneInSlot a.reservation db.reservations
    → NoDoubleBooking (buffer_ms env.config) db.reservations
    → NoDoubleBooking (buffer_ms env.config) (resolve_grace_expiry env a db).1.reservations
resolve_grace_expiry-NoDoubleBooking env a db pos e parked alone h =
    let rs = db.reservations in
    let d = NoDoubleBooking-Distinct (buffer_ms env.config) rs h in
    elim (Bool-cases (any (is_next a.reservation) rs)) [
      | inl queued ↦ rw (resolve_queued env a db queued) (
          NoDoubleBooking-Progress (buffer_ms env.config) rs _
            (mark_overtime-Progress env a db a.reservation d e parked) h)
      | inr unqueued ↦
          rw (resolve_unqueued env a db unqueued)
            (elim (Bool-cases (has_challan a.reservation ChallanType.extension db)) [
              | inl old ↦ rw (extend_done a db old) h
              | inr new ↦
                  let open_a : is_open a.reservation.status ≡ true = ground arith in
                  rw (extend_new a db a.reservation new e).2 (
                    extended-NoDoubleBooking (buffer_ms env.config) a.reservation pos open_a rs
                      (All-Facts (buffer_ms env.config) a.reservation pos open_a rs
                        (find-only (buffer_ms env.config) a.reservation pos open_a rs d e) alone
                        unqueued)
                      h)
            ])
    ]

-- What the end of a grace period makes of the rows.
pub resolve_grace_expiry-rows :
    (env : Env) (a : ActiveReservation) (db : Db) (r : Reservation)
    → find_reservation a.reservation.id db ≡ some r
    → let rows = (resolve_grace_expiry env a db).1.reservations in
      (rows ≡ db.reservations)
      ⊎ (rows ≡ update_many (λ x. x.id == a.reservation.id) overtime_row db.reservations)
      ⊎ (rows
          ≡ update_many
              (λ x. x.id == a.reservation.id)
              (extended_row a.reservation)
              db.reservations)
resolve_grace_expiry-rows env a db r e =
    elim (Bool-cases (any (is_next a.reservation) db.reservations)) [
      | inl queued ↦
          rw (resolve_queued env a db queued)
            (elim (Bool-cases (has_challan a.reservation ChallanType.overtime db)) [
              | inl old ↦ inl (ap rows_of (mark_overtime_done env a db old))
              | inr new ↦ inr (inl (mark_overtime_new env a db r new e).2)
            ])
      | inr unqueued ↦
          rw (resolve_unqueued env a db unqueued)
            (elim (Bool-cases (has_challan a.reservation ChallanType.extension db)) [
              | inl old ↦ inl (ap rows_of (extend_done a db old))
              | inr new ↦ inr (inr (extend_new a db r new e).2)
            ])
    ]

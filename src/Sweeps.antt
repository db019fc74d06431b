-- ===== src/Sweeps.antt =====
-- Loops that cancel reservations one after the other, as the sweep of no-shows and the blocking of a
-- user do, against the table as a whole.
use smart_parking_management.Prelude.{
  ℕ, Bool, true, ◌≡◌, ◌≢◌, refl, ap, ◌∙◌, some, List, [], ◌∷◌, arith, map, ◌==◌, any, if◌then◌else◌,
  find_first, find_many, update_many, All, Forall₂, Bool-cases, inl, inr, ==_refl, ==_sound,
}
use smart_parking_management.Schema.{Db, Reservation}
use smart_parking_management.Schema.Status.{ReservationStatus, is_confirmed}
use smart_parking_management.Action.{Action, ok, for_each}
use smart_parking_management.Lifecycle.{Progress, Distinct, update_absent}

abbrev pub cancelled_row : Reservation → Reservation
cancelled_row r = record r { status = ReservationStatus.cancelled }

-- The cancellations of the loop, one after the other, on the table of reservations.
abbrev cancel_each : List Reservation → List Reservation → List Reservation
cancel_each [] rs = rs
cancel_each (y ∷ ys) rs = cancel_each ys (update_many (λ r. r.id == y.id) cancelled_row rs)

abbrev pub HasId : List Reservation → Reservation → Type 0
HasId rs y = any (λ r. r.id == y.id) rs ≡ true

pub HasId-find :
    (y : Reservation) (rs : List Reservation)
    → HasId rs y
    → (r : Reservation) × (find_first (λ r. r.id == y.id) rs ≡ some r)
HasId-find y [] h = cc
HasId-find y (r ∷ rs) h = elim (Bool-cases (r.id == y.id)) [
  | inl here ↦ (r, rw here)
  | inr there ↦ rw there (HasId-find y rs (ground arith))
]

HasId-update :
    (k : ℕ) (y : Reservation) (rs : List Reservation)
    → HasId rs y
    → HasId (update_many (λ r. r.id == k) cancelled_row rs) y
HasId-update k y [] h = h
HasId-update k y (r ∷ rs) h = ground (arith, HasId-update k y rs)

All-HasId-update :
    (k : ℕ) (ys rs : List Reservation)
    → All (HasId rs) ys
    → All (HasId (update_many (λ r. r.id == k) cancelled_row rs)) ys
All-HasId-update k [] rs h = tt
All-HasId-update k (y ∷ ys) rs h = (HasId-update k y rs h.0, All-HasId-update k ys rs h.1)

-- What the sweep makes of one row.
abbrev pub swept : (Reservation → Bool) → Reservation → Reservation
swept is_late r = if is_late r then cancelled_row r else r

cancel_each-cons :
    (z : Reservation) (ys rs : List Reservation)
    → All (λ y. z.id ≢ y.id) ys
    → cancel_each ys (z ∷ rs) ≡ z ∷ cancel_each ys rs
cancel_each-cons z [] rs h = refl
cancel_each-cons z (y ∷ ys) rs h = elim (Bool-cases (z.id == y.id)) [
  | inl same ↦ absurd (h.0 (==_sound z.id y.id same))
  | inr other ↦ rw other (cancel_each-cons z ys _ h.1)
]

All-find_many :
    (p : Reservation → Bool) (x : Reservation) (rs : List Reservation)
    → All (λ b. x.id ≢ b.id) rs
    → All (λ b. x.id ≢ b.id) (find_many p rs)
All-find_many p x [] h = tt
All-find_many p x (r ∷ rs) h = ground (arith, All-find_many p x rs h.1)

cancel_each_head :
    (x : Reservation) (ys xs : List Reservation)
    → All (λ b. x.id ≢ b.id) xs
    → cancel_each (x ∷ ys) (x ∷ xs) ≡ cancel_each ys (cancelled_row x ∷ xs)
cancel_each_head x ys xs h = rw (==_refl x.id) (rw (update_absent x.id cancelled_row x xs refl h))

cancel_each-swept :
    (is_late : Reservation → Bool) (rs : List Reservation)
    → Distinct rs
    → cancel_each (find_many is_late rs) rs ≡ map (swept is_late) rs
cancel_each-swept is_late [] d = refl
cancel_each-swept is_late (x ∷ xs) d = elim (Bool-cases (is_late x)) [
  | inl late ↦ rw late (
      cancel_each_head x (find_many is_late xs) xs d.0
      ∙ cancel_each-cons (cancelled_row x) (find_many is_late xs) xs
          (All-find_many is_late x xs d.0)
      ∙ ap (◌∷◌ (cancelled_row x)) (cancel_each-swept is_late xs d.1))
  | inr kept ↦ rw kept (
      cancel_each-cons x (find_many is_late xs) xs (All-find_many is_late x xs d.0)
      ∙ ap (◌∷◌ x) (cancel_each-swept is_late xs d.1))
]

All-HasId-cons :
    (x : Reservation) (ys rs : List Reservation) → All (HasId rs) ys → All (HasId (x ∷ rs)) ys
All-HasId-cons x [] rs h = tt
All-HasId-cons x (y ∷ ys) rs h = (ground (arith, h.0), All-HasId-cons x ys rs h.1)

All-HasId-find_many :
    (p : Reservation → Bool) (rs : List Reservation) → All (HasId rs) (find_many p rs)
All-HasId-find_many p [] = tt
All-HasId-find_many p (r ∷ rs) =
    let rest = All-HasId-cons r (find_many p rs) rs (All-HasId-find_many p rs) in
    ground (arith, ==_refl r.id)

-- A loop whose body cancels one reservation, and never throws where the reservation is there,
-- cancels one after the other.
module _ (body : Reservation → Action (Unit {0}))
    (cancels_one : (y : Reservation) (db : Db)
      → HasId db.reservations y
      → ((body y db).0 ≡ ok tt)
        × ((body y db).1.reservations
            ≡ update_many (λ r. r.id == y.id) cancelled_row db.reservations)) where
  pub for_each-cancel :
      (ys : List Reservation) (db : Db)
      → All (HasId db.reservations) ys
      → ((for_each body ys db).0 ≡ ok tt)
        × ((for_each body ys db).1.reservations ≡ cancel_each ys db.reservations)
  unfolding for_each
  for_each-cancel [] db h = (refl, refl)
  for_each-cancel (y ∷ ys) db h =
      let (done, rows) = cancels_one y db h.0 in
      let db' = (body y db).1 in
      let (rest_done, rest_rows) =
        for_each-cancel ys db' (rw rows (All-HasId-update y.id ys db.reservations h.1)) in
      (ground arith, ground arith)

  -- Such a loop over the rows that meet a condition cancels exactly those.
  pub for_each-swept :
      (is_late : Reservation → Bool) (db : Db)
      → Distinct db.reservations
      → ((for_each body (find_many is_late db.reservations) db).0 ≡ ok tt)
        × ((for_each body (find_many is_late db.reservations) db).1.reservations
            ≡ map (swept is_late) db.reservations)
  for_each-swept is_late db d =
      let (done, rows) =
        for_each-cancel (find_many is_late db.reservations) db
          (All-HasId-find_many is_late db.reservations) in
      (done, rows ∙ cancel_each-swept is_late db.reservations d)

pub find-HasId :
    (y r : Reservation) (rs : List Reservation)
    → find_first (λ x. x.id == y.id) rs ≡ some r
    → HasId rs y
find-HasId y r [] e = cc
find-HasId y r (x ∷ xs) e = ground (arith, find-HasId y r xs)

-- A sweep over confirmed reservations keeps to the edges of their life.
pub swept-Progress :
    (is_late : Reservation → Bool)
    → ((r : Reservation) → is_late r ≡ true → is_confirmed r.status ≡ true)
    → (rs : List Reservation) → Forall₂ Progress rs (map (swept is_late) rs)
swept-Progress is_late h [] = tt
swept-Progress is_late h (r ∷ rs) = (ground (arith, h r), swept-Progress is_late h rs)

-- ===== src/Monitoring/NoShows.antt =====
-- What `cancelNoShows` of reservation-monitoring.service.ts does to the reservations.
use smart_parking_management.Prelude.{
  ℕ, Bool, ◌≡◌, ap, none, some, List, [], ◌∷◌, arith, map, ◌==◌, find_first, update_many, Forall₂,
  Option-cases, ◌⊎◌, inl, inr,
}
use smart_parking_management.Schema.{Db, Reservation}
use smart_parking_management.Action.{ok}
use smart_parking_management.Environment.{Env}
use smart_parking_management.Tables.{find_reservation}
use smart_parking_management.Lifecycle.{Progress, Keeps, Distinct}
use smart_parking_management.Sweeps.{
  cancelled_row, HasId, HasId-find, find-HasId, swept, for_each-swept, swept-Progress,
}
use smart_parking_management.Monitoring.{is_no_show, cancel_no_show, cancel_no_shows}

cancel_no_show_lem :
    (y : Reservation) (db : Db)
    → HasId db.reservations y
    → ((cancel_no_show y db).0 ≡ ok tt)
      × ((cancel_no_show y db).1.reservations
          ≡ update_many (λ r. r.id == y.id) cancelled_row db.reservations)
unfolding cancel_no_show
cancel_no_show_lem y db h = let (r, e) = HasId-find y db.reservations h in ground arith

-- If ids are unique, the sweep never throws, cancels exactly the confirmed reservations whose
-- customer is late by more than the grace period, and leaves every other reservation as it was.
pub cancel_no_shows-swept :
    (env : Env) (db : Db)
    → Distinct db.reservations
    → ((cancel_no_shows env db).0 ≡ ok tt)
      × ((cancel_no_shows env db).1.reservations ≡ map (swept (is_no_show env)) db.reservations)
unfolding cancel_no_shows
cancel_no_shows-swept env db d =
    for_each-swept cancel_no_show cancel_no_show_lem (is_no_show env) db d

pub cancel_no_shows-Progress :
    (env : Env) (db : Db)
    → Distinct db.reservations
    → Forall₂ Progress db.reservations (cancel_no_shows env db).1.reservations
cancel_no_shows-Progress env db d =
    rw (cancel_no_shows-swept env db d).1
      (swept-Progress (is_no_show env) (λ r h. ground arith) db.reservations)

find_first-cancelled :
    (k : ℕ) (r : Reservation) (rs : List Reservation)
    → find_first (λ x. x.id == k) rs ≡ some r
    → find_first (λ x. x.id == k) (update_many (λ x. x.id == k) cancelled_row rs)
      ≡ some (cancelled_row r)
find_first-cancelled k r [] e = cc
find_first-cancelled k r (x ∷ xs) e = ground (arith, find_first-cancelled k r xs)

-- The transaction for one no-show writes without looking at the status again: whatever the
-- reservation that is there has become since the sweep read it, checked in say, it ends up
-- cancelled.
pub cancel_no_show_overwrites :
    (stale r : Reservation) (db : Db)
    → find_reservation stale.id db ≡ some r
    → ((cancel_no_show stale db).0 ≡ ok tt)
      × (find_reservation stale.id (cancel_no_show stale db).1 ≡ some (cancelled_row r))
cancel_no_show_overwrites stale r db e =
    let (done, rows) = cancel_no_show_lem stale db (find-HasId stale r db.reservations e) in
    (done, rw rows (find_first-cancelled stale.id r db.reservations e))

cancelled-Keeps :
    (p : Reservation → Bool) (rs : List Reservation)
    → Forall₂ Keeps rs (update_many p cancelled_row rs)
cancelled-Keeps p [] = tt
cancelled-Keeps p (r ∷ rs) = (ground arith, cancelled-Keeps p rs)

All-Keeps-refl : (rs : List Reservation) → Forall₂ Keeps rs rs
All-Keeps-refl [] = tt
All-Keeps-refl (r ∷ rs) = (ground arith, All-Keeps-refl rs)

cancel_no_show_missing :
    (stale : Reservation) (db : Db)
    → find_reservation stale.id db ≡ none
    → (cancel_no_show stale db).1 ≡ db
unfolding cancel_no_show
cancel_no_show_missing stale db e = ground arith

pub cancel_no_show-Keeps :
    (stale : Reservation) (db : Db)
    → Forall₂ Keeps db.reservations (cancel_no_show stale db).1.reservations
cancel_no_show-Keeps stale db = elim (Option-cases (find_reservation stale.id db)) [
  | inl missing ↦ rw (cancel_no_show_missing stale db missing) (All-Keeps-refl db.reservations)
  | inr (r, e) ↦
      rw (cancel_no_show_lem stale db (find-HasId stale r db.reservations e)).1
        (cancelled-Keeps (λ x. x.id == stale.id) db.reservations)
]

pub cancel_no_show-rows :
    (stale : Reservation) (db : Db)
    → ((cancel_no_show stale db).1.reservations ≡ db.reservations)
      ⊎ ((cancel_no_show stale db).1.reservations
          ≡ update_many (λ x. x.id == stale.id) cancelled_row db.reservations)
cancel_no_show-rows stale db = elim (Option-cases (find_reservation stale.id db)) [
  | inl missing ↦ inl (ap (λ (d : Db). d.reservations) (cancel_no_show_missing stale db missing))
  | inr (r, e) ↦ inr (cancel_no_show_lem stale db (find-HasId stale r db.reservations e)).1
]

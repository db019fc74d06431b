-- ===== src/Users/Blocking.antt =====
-- What `UsersService.block` does to the user's row and to the table of reservations.
use smart_parking_management.Prelude.{
  ℕ, true, ◌≡◌, ◌≢◌, some, none, ◌==◌, map, arith, update_many, find_first, Forall₂, Option-cases,
  Bool-cases, inl, inr, List, [], ◌∷◌, find_many, ◌∙◌, refl,
}
use smart_parking_management.Schema.{Db, User, Reservation}
use smart_parking_management.Action.{ok, err, Error, for_each}
use smart_parking_management.Lifecycle.{Progress, Distinct, All-Progress-refl}
use smart_parking_management.Sweeps.{
  cancelled_row, HasId, HasId-find, swept, for_each-swept, swept-Progress,
}
use smart_parking_management.Users.{find_user, set_blocked, is_awaited_of, cancel_of_blocked, block}

cancel_of_blocked_lem :
    (y : Reservation) (db : Db)
    → HasId db.reservations y
    → ((cancel_of_blocked y db).0 ≡ ok tt)
      × ((cancel_of_blocked y db).1.reservations
          ≡ update_many (λ r. r.id == y.id) cancelled_row db.reservations)
      × ((cancel_of_blocked y db).1.users ≡ db.users)
unfolding cancel_of_blocked
cancel_of_blocked_lem y db h = let (r, e) = HasId-find y db.reservations h in ground arith

-- The loop does not touch the users, whether it throws or not.
for_each-users :
    (ys : List Reservation) (db : Db) → (for_each cancel_of_blocked ys db).1.users ≡ db.users
unfolding for_each cancel_of_blocked
for_each-users [] db = refl
for_each-users (y ∷ ys) db = elim (Option-cases (find_first (λ r. r.id == y.id) db.reservations)) [
  | inl missing ↦ ground arith
  | inr (r, e) ↦ ground (arith, for_each-users ys (cancel_of_blocked y db).1)
]

find_user-blocked :
    (id : ℕ) (us : List User) {u : User}
    → find_first (λ x. x.id == id) us ≡ some u
    → find_first (λ x. x.id == id) (update_many (λ x. x.id == id) (set_blocked true) us)
      ≡ some (set_blocked true u)
find_user-blocked id [] e = cc
find_user-blocked id (x ∷ xs) {u} e = ground (arith, find_user-blocked id xs {u = u})

-- The database inside the transaction, once the user is marked.
abbrev marked : ℕ → Db → Db
marked id db = record db { users = update_many (λ u. u.id == id) (set_blocked true) db.users }

block_run :
    (id requester : ℕ) (db : Db) (u : User)
    → id ≢ requester
    → find_user id db ≡ some u
    → let late = find_many (is_awaited_of id) db.reservations in
      let swept_db = (for_each cancel_of_blocked late (marked id db)).1 in
      (for_each cancel_of_blocked late (marked id db)).0 ≡ ok tt
      → find_user id swept_db ≡ some (set_blocked true u)
      → ((block id requester db).0 ≡ ok (set_blocked true u))
        × ((block id requester db).1.reservations ≡ swept_db.reservations)
unfolding block
block_run id requester db u ne e done found = ground arith

-- Blocking a user that is there, and not the requester, returns the row marked as blocked; exactly the
-- confirmed reservations of that user are cancelled, and every other reservation, a parked one of the
-- user included, is left as it was, if ids are unique.
pub block-swept :
    (id requester : ℕ) (db : Db) (u : User)
    → id ≢ requester
    → find_user id db ≡ some u
    → Distinct db.reservations
    → ((block id requester db).0 ≡ ok (set_blocked true u))
      × ((block id requester db).1.reservations ≡ map (swept (is_awaited_of id)) db.reservations)
block-swept id requester db u ne e d =
    let late = find_many (is_awaited_of id) db.reservations in
    let (done, rows) =
      for_each-swept cancel_of_blocked
        (λ y c h. ((cancel_of_blocked_lem y c h).0, (cancel_of_blocked_lem y c h).1))
        (is_awaited_of id) (marked id db) d in
    let found = find_user-blocked id db.users e in
    let (result, reservations) =
      block_run id requester db u ne e done (rw (for_each-users late (marked id db)) found) in
    (result, reservations ∙ rows)

block_run-users :
    (id requester : ℕ) (db : Db) (u : User)
    → id ≢ requester
    → find_user id db ≡ some u
    → let late = find_many (is_awaited_of id) db.reservations in
      let swept_db = (for_each cancel_of_blocked late (marked id db)).1 in
      (for_each cancel_of_blocked late (marked id db)).0 ≡ ok tt
      → find_user id swept_db ≡ some (set_blocked true u)
      → (block id requester db).1.users ≡ swept_db.users
unfolding block
block_run-users id requester db u ne e done found = ground arith

-- The users after a user was blocked.
pub block-users :
    (id requester : ℕ) (db : Db) (u : User)
    → id ≢ requester
    → find_user id db ≡ some u
    → Distinct db.reservations
    → (block id requester db).1.users ≡ update_many (λ x. x.id == id) (set_blocked true) db.users
block-users id requester db u ne e d =
    let late = find_many (is_awaited_of id) db.reservations in
    let (done, rows) =
      for_each-swept cancel_of_blocked
        (λ y c h. ((cancel_of_blocked_lem y c h).0, (cancel_of_blocked_lem y c h).1))
        (is_awaited_of id) (marked id db) d in
    let users = for_each-users late (marked id db) in
    block_run-users id requester db u ne e done (rw users (find_user-blocked id db.users e)) ∙ users

block_own :
    (id requester : ℕ) (db : Db)
    → id == requester ≡ true
    → block id requester db ≡ (err Error.own_account, db)
unfolding block
block_own id requester db own = ground arith

block_unknown :
    (id requester : ℕ) (db : Db) → find_user id db ≡ none → (block id requester db).1 ≡ db
unfolding block
block_unknown id requester db e = ground arith

-- Blocking, accepted or refused, changes no reservation but along an edge of its life, if ids are
-- unique.
pub block-Progress :
    (id requester : ℕ) (db : Db)
    → Distinct db.reservations
    → Forall₂ Progress db.reservations (block id requester db).1.reservations
block-Progress id requester db d = elim (Bool-cases (id == requester)) [
  | inl own ↦ rw (block_own id requester db own) (All-Progress-refl db.reservations)
  | inr other ↦ elim (Option-cases (find_user id db)) [
    | inl missing ↦ rw (block_unknown id requester db missing) (All-Progress-refl db.reservations)
    | inr (u, e) ↦
        rw (block-swept id requester db u (ground arith) e d).1
          (swept-Progress (is_awaited_of id) (λ r h. ground arith) db.reservations)
  ]
]

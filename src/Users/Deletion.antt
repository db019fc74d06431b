-- ===== src/Users/Deletion.antt =====
-- The deletion of an account, in users.service.ts, with what backend/prisma/schema.prisma says of the
-- rows that refer to a user: its reservations and its card go along (`onDelete: Cascade`), and with a
-- reservation its payment, its codes and its challans; a parking lot that it manages and a policy
-- document that it has uploaded forbid the deletion.
use smart_parking_management.Prelude.{ℕ, Bool, not, ◌||◌, List, find_many, map, any, some, ◌==◌}
use smart_parking_management.Schema.{Db, Reservation}
use smart_parking_management.Schema.Status.{AuditAction, is_manager}
use smart_parking_management.Action.{
  Action, Error, gets, or_throw, throw_if, modify, on_foreign_key, ◌>>=◌, ◌>>◌,
}
use smart_parking_management.Services.{log}
use smart_parking_management.ParkingSlots.{is_in}
use smart_parking_management.Users.{find_user}

abbrev pub is_referred_to : ℕ → Db → Bool
is_referred_to id db =
    any (λ lot. lot.manager_id == id) db.lots
    || any (λ doc. doc.uploaded_by == id) db.policy_documents

-- The ids of the user's reservations.
abbrev pub reservation_ids_of : ℕ → Db → List ℕ
reservation_ids_of id db =
    map (λ r. r.id) (find_many (λ (r : Reservation). r.user_id == id) db.reservations)

-- What the database deletes along with a user.
abbrev pub without_user : ℕ → Db → Db
without_user id db = record db {
  users = find_many (λ u. not (u.id == id)) db.users;
  payment_methods = find_many (λ m. not (m.user_id == id)) db.payment_methods;
  reservations = find_many (λ r. not (r.user_id == id)) db.reservations;
  payments = find_many (λ p. not (is_in (reservation_ids_of id db) p.reservation_id)) db.payments;
  qr_codes = find_many (λ c. not (is_in (reservation_ids_of id db) c.reservation_id)) db.qr_codes;
  challans = find_many (λ c. not (is_in (reservation_ids_of id db) c.reservation_id)) db.challans;
}

-- `user.delete({ where: { id } })`
abbrev pub delete_user : ℕ → Action (Unit {0})
delete_user id = do
  or_throw (← gets (find_user id)) Error.record_missing
  throw_if (← gets (is_referred_to id)) Error.foreign_key_violated
  modify (without_user id)

-- `UsersService.removeManager`
unfoldable pub remove_manager : ℕ → ℕ → Action (Unit {0})
remove_manager id requesting_user_id = do
  target ← or_throw (← gets (find_user id)) Error.user_not_found
  throw_if (not (is_manager target.role)) Error.not_a_manager
  on_foreign_key Error.still_manages (delete_user id)
  log id AuditAction.manager_deleted_by_admin (some requesting_user_id)

-- `UsersService.removeSelf`
unfoldable pub remove_self : ℕ → Action (Unit {0})
remove_self user_id = do
  on_foreign_key Error.still_manages (delete_user user_id)
  log user_id AuditAction.user_self_deleted (some user_id)

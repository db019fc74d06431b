-- ===== src/Users/Links.antt =====
-- The deletion of an account in users.service.ts against the foreign keys of
-- backend/prisma/schema.prisma: which rows it deletes along, and what becomes of the slots. The recipient
-- and the reservation of a notification are no foreign keys, and are not looked at here.
use smart_parking_management.Prelude.{
  ℕ, Bool, false, not, ◌≡◌, ◌⊎◌, refl, List, [], ◌∷◌, find_many, any, arith, ◌==◌, inl, inr, some,
}
use smart_parking_management.Schema.{Db, User, Reservation}
use smart_parking_management.Action.{ok}
use smart_parking_management.Links.{
  AllRefer-find_many, AllRefer-cascade, AllRefer-delete, AllRefer-along, IsLinked, with_logs,
}
use smart_parking_management.Users.{find_user}
use smart_parking_management.Users.Deletion.{
  is_referred_to, without_user, remove_manager, remove_self,
}

without_user-IsLinked :
    (id : ℕ) (db : Db) → is_referred_to id db ≡ false → IsLinked db → IsLinked (without_user id db)
without_user-IsLinked id db free h =
    let mine : Reservation → Bool = λ r. r.user_id == id in
    record {
      reservations = AllRefer-along _ _ id db.reservations db.users h.reservations;
      cards = AllRefer-along _ _ id db.payment_methods db.users h.cards;
      lots = AllRefer-delete _ _ id db.lots db.users h.lots (ground arith);
      documents = AllRefer-delete _ _ id db.policy_documents db.users h.documents (ground arith);
      payments = AllRefer-cascade _ _ mine db.payments db.reservations h.payments;
      qr_codes = AllRefer-cascade _ _ mine db.qr_codes db.reservations h.qr_codes;
      challans = AllRefer-cascade _ _ mine db.challans db.reservations h.challans;
      floors = h.floors;
      slots = h.slots;
      slots_on_floors = h.slots_on_floors;
      booked_lots =
          AllRefer-find_many _ _ (λ r. not (r.user_id == id)) db.reservations db.lots h.booked_lots;
      booked_slots =
          AllRefer-find_many _ _ (λ r. not (r.user_id == id)) db.reservations db.slots
            h.booked_slots;
    }

remove_self-cases :
    (id : ℕ) (db : Db)
    → let logs = (remove_self id db).1.audit_logs in
      ((remove_self id db).1 ≡ record db { audit_logs = logs })
      ⊎ ((is_referred_to id db ≡ false)
          × ((remove_self id db).1 ≡ record (without_user id db) { audit_logs = logs }))
unfolding remove_self
remove_self-cases id db = ground arith

remove_manager-cases :
    (id requester : ℕ) (db : Db)
    → let logs = (remove_manager id requester db).1.audit_logs in
      ((remove_manager id requester db).1 ≡ record db { audit_logs = logs })
      ⊎ ((is_referred_to id db ≡ false)
          × ((remove_manager id requester db).1
              ≡ record (without_user id db) { audit_logs = logs }))
unfolding remove_manager
remove_manager-cases id requester db = ground arith

-- The deletion of one's own account, done or refused, leaves every foreign key of a
-- row with a row that it refers to, if that was so before.
pub remove_self-IsLinked : (id : ℕ) (db : Db) → IsLinked db → IsLinked (remove_self id db).1
remove_self-IsLinked id db h = elim (remove_self-cases id db) [
  | inl same ↦ rw same (with_logs db _ h)
  | inr (free, gone) ↦
      rw gone (with_logs (without_user id db) _ (without_user-IsLinked id db free h))
]

-- The deletion of a manager's account, done or refused, leaves every foreign key of a
-- row with a row that it refers to, if that was so before.
pub remove_manager-IsLinked :
    (id requester : ℕ) (db : Db) → IsLinked db → IsLinked (remove_manager id requester db).1
remove_manager-IsLinked id requester db h = elim (remove_manager-cases id requester db) [
  | inl same ↦ rw same (with_logs db _ h)
  | inr (free, gone) ↦
      rw gone (with_logs (without_user id db) _ (without_user-IsLinked id db free h))
]

-- The deletion of an account, one's own or a manager's, leaves the reservations as they were, or deletes
-- those of the account.
pub remove_self-reservations :
    (id : ℕ) (db : Db)
    → ((remove_self id db).1.reservations ≡ db.reservations)
      ⊎ ((remove_self id db).1.reservations
          ≡ find_many (λ r. not (r.user_id == id)) db.reservations)
unfolding remove_self
remove_self-reservations id db = ground arith

pub remove_manager-reservations :
    (id requester : ℕ) (db : Db)
    → ((remove_manager id requester db).1.reservations ≡ db.reservations)
      ⊎ ((remove_manager id requester db).1.reservations
          ≡ find_many (λ r. not (r.user_id == id)) db.reservations)
unfolding remove_manager
remove_manager-reservations id requester db = ground arith

none_left :
    (id : ℕ) (rs : List Reservation)
    → any (λ r. r.user_id == id) (find_many (λ r. not (r.user_id == id)) rs) ≡ false
none_left id [] = refl
none_left id (r ∷ rs) = ground (arith, none_left id rs)

remove_self_run :
    (id : ℕ) (db : Db) (u : User)
    → find_user id db ≡ some u
    → is_referred_to id db ≡ false
    → ((remove_self id db).0 ≡ ok tt)
      × ((remove_self id db).1.slots ≡ db.slots)
      × ((remove_self id db).1.reservations
          ≡ find_many (λ r. not (r.user_id == id)) db.reservations)
unfolding remove_self
remove_self_run id db u e free = ground arith

-- A user who manages no lot and has uploaded no document can delete the account, whatever its
-- reservations are: they are all gone afterwards, and every slot keeps its status, so that one that was
-- reserved or occupied for them stays so.
pub remove_self_strands_slots :
    (id : ℕ) (db : Db) (u : User)
    → find_user id db ≡ some u
    → is_referred_to id db ≡ false
    → ((remove_self id db).0 ≡ ok tt)
      × ((remove_self id db).1.slots ≡ db.slots)
      × (any (λ r. r.user_id == id) (remove_self id db).1.reservations ≡ false)
remove_self_strands_slots id db u e free =
    let (done, slots, rows) = remove_self_run id db u e free in
    (done, slots, rw rows (none_left id db.reservations))

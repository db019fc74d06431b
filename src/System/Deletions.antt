-- ===== src/System/Deletions.antt =====
-- The requests that delete rows that others refer to: of an account, by its owner or by an admin, of a lot
-- and of a floor.
use smart_parking_management.Prelude.{ℕ}
use smart_parking_management.Schema.{Db}
use smart_parking_management.Environment.{AuthenticatedUser}
use smart_parking_management.Users.Deletion.{remove_manager, remove_self}
use smart_parking_management.Users.Links.{remove_self-IsLinked, remove_manager-IsLinked}
use smart_parking_management.Lots.{remove_lot, remove_floor}
use smart_parking_management.Lots.Changes.{remove_lot-IsLinked, remove_floor-IsLinked}
use smart_parking_management.Links.{IsLinked}

-- A deletion, done or refused.
pub data Deletion : Db → Db → Type 0 where
  of_self : {db : Db} (id : ℕ) → Deletion db (remove_self id db).1
  of_manager : {db : Db} (id requester : ℕ) → Deletion db (remove_manager id requester db).1
  of_lot :
      {db : Db} (id : ℕ) (requester : AuthenticatedUser)
      → Deletion db (remove_lot id requester db).1
  of_floor :
      {db : Db} (lot_id id : ℕ) (requester : AuthenticatedUser)
      → Deletion db (remove_floor lot_id id requester db).1

-- Deletions one after the other.
pub data Deletions : Db → Db → Type 0 where
  none_more : {db : Db} → Deletions db db
  then : {a b c : Db} → Deletion a b → Deletions b c → Deletions a c

Deletion-IsLinked : {a b : Db} → Deletion a b → IsLinked a → IsLinked b
Deletion-IsLinked (Deletion.of_self id) h = remove_self-IsLinked id _ h
Deletion-IsLinked (Deletion.of_manager id requester) h = remove_manager-IsLinked id requester _ h
Deletion-IsLinked (Deletion.of_lot id requester) h = remove_lot-IsLinked id requester _ h
Deletion-IsLinked (Deletion.of_floor lot_id id requester) h =
    remove_floor-IsLinked lot_id id requester _ h

-- However accounts, lots and floors are deleted, one after the other, and whoever asks for it: every
-- foreign key of a row keeps a row that it refers to, if that was so before.
pub Deletions-IsLinked : {a b : Db} → Deletions a b → IsLinked a → IsLinked b
Deletions-IsLinked Deletions.none_more h = h
Deletions-IsLinked (Deletions.then d ds) h = Deletions-IsLinked ds (Deletion-IsLinked d h)

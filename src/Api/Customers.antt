-- ===== src/Api/Customers.antt =====
-- What the requests of Routes change of the lots and the policy documents when a customer sends them.
use smart_parking_management.Prelude.{
  false, not, ◌≡◌, refl, Option, some, List, arith, Bool-cases, ◌⊎◌, inl, inr,
}
use smart_parking_management.Schema.{Db}
use smart_parking_management.Schema.Status.{Role}
use smart_parking_management.Action.{Action, Error, throw_if, ◌>>◌}
use smart_parking_management.Environment.{AuthenticatedUser}
use smart_parking_management.Auth.{JwtPayload, validate, can_activate}
use smart_parking_management.Lots.Availability.{find_one_lot, find_floors}
use smart_parking_management.ParkingSlots.{find_one_slot}
use smart_parking_management.Reservations.{
  find_one, find_by_lot, create, book, cancel, confirm_checkout_payment, fail_checkout_payment,
}
use smart_parking_management.Users.{
  get_payment_method, update_profile, change_password, save_payment_method,
}
use smart_parking_management.Users.Deletion.{remove_self}
use smart_parking_management.Api.{Outside}
use smart_parking_management.Api.Lots.{LotRequest}
use smart_parking_management.Api.Slots.{SlotRequest}
use smart_parking_management.Api.Reservations.{ReservationRequest, reservation_handler}
use smart_parking_management.Api.Users.{UserRequest}
use smart_parking_management.Api.Notifications.{NotificationRequest}
use smart_parking_management.Api.Routes.{Request, roles_of, handler, handle}
use smart_parking_management.Api.Guarded.{handle-cases, find_floors_reads}

-- The tables that say what lots there are.
abbrev pub KeepsLots : Db → Db → Type 0
KeepsLots db db' =
    (db'.lots ≡ db.lots)
    × (db'.floors ≡ db.floors)
    × (db'.policy_documents ≡ db.policy_documents)
    × (db'.policy_chunks ≡ db.policy_chunks)

module _ (o : Outside) (user : AuthenticatedUser) (db : Db) where
  customer_lots :
      (request : ReservationRequest) → KeepsLots db (reservation_handler o request user db).1
  unfolding create book cancel confirm_checkout_payment fail_checkout_payment find_one find_by_lot
  customer_lots (ReservationRequest.post_reservation _) = ground arith
  customer_lots ReservationRequest.get_mine = ground arith
  customer_lots (ReservationRequest.get_reservations _) = ground arith
  customer_lots (ReservationRequest.get_reservation _) = ground arith
  customer_lots (ReservationRequest.post_cancel _) = ground arith
  customer_lots (ReservationRequest.post_payment_confirm _) = ground arith
  customer_lots (ReservationRequest.post_payment_fail _) = ground arith

  Kept : Request → Type 0
  Kept request =
      (can_activate (roles_of request) (some user) ≡ false)
      ⊎ KeepsLots db (handler o request user db).1

  -- What a customer asks for is refused, or keeps the lots.
  customer-Kept : (request : Request) → user.role ≡ Role.customer → Kept request
  unfolding Kept can_activate find_one_lot find_floors find_one_slot update_profile remove_self
      change_password save_payment_method get_payment_method
  customer-Kept (Request.on_lots (LotRequest.get_nearby _)) e = inr (refl, refl, refl, refl)
  customer-Kept (Request.on_lots LotRequest.get_lots) e = inr (refl, refl, refl, refl)
  customer-Kept (Request.on_lots (LotRequest.get_lot _)) e = inr (ground arith)
  customer-Kept (Request.on_lots (LotRequest.get_floors _)) e = inr (ground arith)
  customer-Kept (Request.on_lots (LotRequest.post_lot _)) e = inl (rw e refl)
  customer-Kept (Request.on_lots (LotRequest.patch_lot _ _)) e = inl (rw e refl)
  customer-Kept (Request.on_lots (LotRequest.delete_lot _)) e = inl (rw e refl)
  customer-Kept (Request.on_lots (LotRequest.post_floor _ _)) e = inl (rw e refl)
  customer-Kept (Request.on_lots (LotRequest.patch_floor _ _ _)) e = inl (rw e refl)
  customer-Kept (Request.on_lots (LotRequest.delete_floor _ _)) e = inl (rw e refl)
  customer-Kept (Request.on_slots (SlotRequest.get_slots _)) e = inr (refl, refl, refl, refl)
  customer-Kept (Request.on_slots (SlotRequest.get_slot _)) e = inr (ground arith)
  customer-Kept (Request.on_slots (SlotRequest.patch_bulk_status _)) e = inl (rw e refl)
  customer-Kept (Request.on_slots (SlotRequest.patch_slot _ _)) e = inl (rw e refl)
  customer-Kept (Request.on_reservations r) e = inr (customer_lots r)
  customer-Kept (Request.at_checkpoint _) e = inl (rw e refl)
  customer-Kept (Request.on_users UserRequest.get_users) e = inl (rw e refl)
  customer-Kept (Request.on_users (UserRequest.post_staff _)) e = inl (rw e refl)
  customer-Kept (Request.on_users (UserRequest.delete_manager _)) e = inl (rw e refl)
  customer-Kept (Request.on_users (UserRequest.get_user _)) e = inl (rw e refl)
  customer-Kept (Request.on_users (UserRequest.patch_user _ _)) e = inl (rw e refl)
  customer-Kept (Request.on_users (UserRequest.patch_role _ _)) e = inl (rw e refl)
  customer-Kept (Request.on_users (UserRequest.patch_block _)) e = inl (rw e refl)
  customer-Kept (Request.on_users (UserRequest.patch_unblock _)) e = inl (rw e refl)
  customer-Kept (Request.on_users UserRequest.get_me) e = inr (ground arith)
  customer-Kept (Request.on_users (UserRequest.patch_me _)) e = inr (ground arith)
  customer-Kept (Request.on_users UserRequest.delete_me) e = inr (ground arith)
  customer-Kept (Request.on_users (UserRequest.patch_password _)) e = inr (ground arith)
  customer-Kept (Request.on_users (UserRequest.put_payment_method _)) e = inr (ground arith)
  customer-Kept (Request.on_users UserRequest.get_my_payment_method) e = inr (ground arith)
  customer-Kept (Request.on_policies _) e = inl (rw e refl)
  customer-Kept (Request.on_notifications NotificationRequest.get_mine_notifications) e =
      inr (refl, refl, refl, refl)
  customer-Kept (Request.on_notifications NotificationRequest.patch_mine_read) e =
      inr (refl, refl, refl, refl)

  guarded_keeps :
      (roles : Option (List Role)) (m : AuthenticatedUser → Action (Unit {0}))
      → (can_activate roles (some user) ≡ false) ⊎ KeepsLots db (m user db).1
      → KeepsLots db
          ((throw_if (not (can_activate roles (some user))) Error.forbidden >> m user) db).1
  guarded_keeps roles m (inl refused) = rw refused (refl, refl, refl, refl)
  guarded_keeps roles m (inr kept) = elim (Bool-cases (can_activate roles (some user))) [
    | inl allowed ↦ rw allowed kept
    | inr refused ↦ rw refused (refl, refl, refl, refl)
  ]

-- A request that a customer sends to one of the controllers of lots, slots, reservations, checkpoint,
-- users, policies and notifications leaves the lots, their floors and the policy documents as they were.
-- Registration, login and the chat with the assistant are not among these requests.
pub customer-KeepsLots :
    (o : Outside) (payload : JwtPayload) (request : Request) (db : Db)
    → payload.role ≡ Role.customer
    → KeepsLots db (handle o (some payload) request db).1
unfolding Kept
customer-KeepsLots o payload request db e = elim (handle-cases o db (some payload) request) [
  | inl behind ↦ rw behind (
      guarded_keeps o (validate payload) db (roles_of request) (handler o request)
        (customer-Kept o (validate payload) db request e))
  | inr (_, (id, found)) ↦
      let same = find_floors_reads o db id in rw (found, same) (refl, refl, refl, refl)
]

-- ===== src/Api/Guarded.antt =====
-- The guards before a request of Routes, and the requests with the method GET, of whose bodies the lists
-- are left out.
use smart_parking_management.Prelude.{
  ℕ, Bool, true, false, ◌≡◌, refl, Option, none, some, arith, Bool-cases, ◌⊎◌, inl, inr,
}
use smart_parking_management.Schema.{Db}
use smart_parking_management.Action.{err, Error}
use smart_parking_management.Environment.{AuthenticatedUser}
use smart_parking_management.Auth.{JwtPayload, validate, can_activate}
use smart_parking_management.Lots.Availability.{find_one_lot, find_floors}
use smart_parking_management.ParkingSlots.{find_one_slot}
use smart_parking_management.Reservations.{find_one, find_by_lot}
use smart_parking_management.Users.{get_payment_method}
use smart_parking_management.Api.{Outside, done, guarded}
use smart_parking_management.Api.Lots.{LotRequest}
use smart_parking_management.Api.Slots.{SlotRequest}
use smart_parking_management.Api.Reservations.{ReservationRequest}
use smart_parking_management.Api.Users.{UserRequest}
use smart_parking_management.Api.Policies.{PolicyRequest}
use smart_parking_management.Api.Notifications.{NotificationRequest}
use smart_parking_management.Api.Routes.{Request, roles_of, handler, handle}

-- The one request among these that has no guard.
abbrev pub is_unguarded : Request → Bool
is_unguarded (Request.on_lots (LotRequest.get_floors _)) = true
is_unguarded _ = false

-- The requests with the method GET.
abbrev pub is_get : Request → Bool
is_get (Request.on_lots (LotRequest.get_nearby _)) = true
is_get (Request.on_lots LotRequest.get_lots) = true
is_get (Request.on_lots (LotRequest.get_lot _)) = true
is_get (Request.on_lots (LotRequest.get_floors _)) = true
is_get (Request.on_slots (SlotRequest.get_slots _)) = true
is_get (Request.on_slots (SlotRequest.get_slot _)) = true
is_get (Request.on_reservations ReservationRequest.get_mine) = true
is_get (Request.on_reservations (ReservationRequest.get_reservations _)) = true
is_get (Request.on_reservations (ReservationRequest.get_reservation _)) = true
is_get (Request.on_users UserRequest.get_users) = true
is_get (Request.on_users UserRequest.get_me) = true
is_get (Request.on_users UserRequest.get_my_payment_method) = true
is_get (Request.on_users (UserRequest.get_user _)) = true
is_get (Request.on_policies PolicyRequest.get_policies) = true
is_get (Request.on_notifications NotificationRequest.get_mine_notifications) = true
is_get _ = false

module _ (o : Outside) (db : Db) where
  handler_reads :
      (request : Request) (user : AuthenticatedUser)
      → is_get request ≡ true
      → (handler o request user db).1 ≡ db
  unfolding find_one_lot find_floors find_one_slot find_one find_by_lot get_payment_method
  handler_reads (Request.on_lots (LotRequest.get_nearby _)) user h = refl
  handler_reads (Request.on_lots LotRequest.get_lots) user h = refl
  handler_reads (Request.on_lots (LotRequest.get_lot _)) user h = ground arith
  handler_reads (Request.on_lots (LotRequest.get_floors _)) user h = ground arith
  handler_reads (Request.on_slots (SlotRequest.get_slots _)) user h = refl
  handler_reads (Request.on_slots (SlotRequest.get_slot _)) user h = ground arith
  handler_reads (Request.on_reservations ReservationRequest.get_mine) user h = refl
  handler_reads (Request.on_reservations (ReservationRequest.get_reservations _)) user h =
      ground arith
  handler_reads (Request.on_reservations (ReservationRequest.get_reservation _)) user h =
      ground arith
  handler_reads (Request.on_users UserRequest.get_users) user h = refl
  handler_reads (Request.on_users UserRequest.get_me) user h = ground arith
  handler_reads (Request.on_users UserRequest.get_my_payment_method) user h = ground arith
  handler_reads (Request.on_users (UserRequest.get_user _)) user h = ground arith
  handler_reads (Request.on_policies PolicyRequest.get_policies) user h = refl
  handler_reads (Request.on_notifications NotificationRequest.get_mine_notifications) user h = refl
  handler_reads (Request.on_lots (LotRequest.post_lot _)) user h = cc
  handler_reads (Request.on_lots (LotRequest.patch_lot _ _)) user h = cc
  handler_reads (Request.on_lots (LotRequest.delete_lot _)) user h = cc
  handler_reads (Request.on_lots (LotRequest.post_floor _ _)) user h = cc
  handler_reads (Request.on_lots (LotRequest.patch_floor _ _ _)) user h = cc
  handler_reads (Request.on_lots (LotRequest.delete_floor _ _)) user h = cc
  handler_reads (Request.on_slots (SlotRequest.patch_bulk_status _)) user h = cc
  handler_reads (Request.on_slots (SlotRequest.patch_slot _ _)) user h = cc
  handler_reads (Request.on_reservations (ReservationRequest.post_reservation _)) user h = cc
  handler_reads (Request.on_reservations (ReservationRequest.post_cancel _)) user h = cc
  handler_reads (Request.on_reservations (ReservationRequest.post_payment_confirm _)) user h = cc
  handler_reads (Request.on_reservations (ReservationRequest.post_payment_fail _)) user h = cc
  handler_reads (Request.at_checkpoint _) user h = cc
  handler_reads (Request.on_users (UserRequest.patch_me _)) user h = cc
  handler_reads (Request.on_users UserRequest.delete_me) user h = cc
  handler_reads (Request.on_users (UserRequest.patch_password _)) user h = cc
  handler_reads (Request.on_users (UserRequest.put_payment_method _)) user h = cc
  handler_reads (Request.on_users (UserRequest.post_staff _)) user h = cc
  handler_reads (Request.on_users (UserRequest.delete_manager _)) user h = cc
  handler_reads (Request.on_users (UserRequest.patch_user _ _)) user h = cc
  handler_reads (Request.on_users (UserRequest.patch_role _ _)) user h = cc
  handler_reads (Request.on_users (UserRequest.patch_block _)) user h = cc
  handler_reads (Request.on_users (UserRequest.patch_unblock _)) user h = cc
  handler_reads (Request.on_policies (PolicyRequest.post_policy _ _ _)) user h = cc
  handler_reads (Request.on_policies (PolicyRequest.delete_policy _)) user h = cc
  handler_reads (Request.on_notifications NotificationRequest.patch_mine_read) user h = cc

  guarded_reads :
      (token : Option JwtPayload) (request : Request)
      → ((user : AuthenticatedUser) → (handler o request user db).1 ≡ db)
      → (guarded token (roles_of request) (handler o request) db).1 ≡ db
  guarded_reads none request h = refl
  guarded_reads (some p) request h =
      elim (Bool-cases (can_activate (roles_of request) (some (validate p)))) [
        | inl allowed ↦ rw allowed (h (validate p))
        | inr refused ↦ rw refused refl
      ]

  pub handle-cases :
      (token : Option JwtPayload) (request : Request)
      → (handle o token request ≡ guarded token (roles_of request) (handler o request))
        ⊎ ((is_unguarded request ≡ true)
            × ((id : ℕ) × (handle o token request ≡ done (find_floors id))))
  unfolding handle
  handle-cases token (Request.on_lots (LotRequest.get_nearby _)) = inl refl
  handle-cases token (Request.on_lots LotRequest.get_lots) = inl refl
  handle-cases token (Request.on_lots (LotRequest.get_lot _)) = inl refl
  handle-cases token (Request.on_lots (LotRequest.post_lot _)) = inl refl
  handle-cases token (Request.on_lots (LotRequest.patch_lot _ _)) = inl refl
  handle-cases token (Request.on_lots (LotRequest.delete_lot _)) = inl refl
  handle-cases token (Request.on_lots (LotRequest.post_floor _ _)) = inl refl
  handle-cases token (Request.on_lots (LotRequest.patch_floor _ _ _)) = inl refl
  handle-cases token (Request.on_lots (LotRequest.delete_floor _ _)) = inl refl
  handle-cases token (Request.on_lots (LotRequest.get_floors id)) = inr (refl, (id, refl))
  handle-cases token (Request.on_slots _) = inl refl
  handle-cases token (Request.on_reservations _) = inl refl
  handle-cases token (Request.at_checkpoint _) = inl refl
  handle-cases token (Request.on_users _) = inl refl
  handle-cases token (Request.on_policies _) = inl refl
  handle-cases token (Request.on_notifications _) = inl refl

  pub find_floors_reads : (id : ℕ) → (done (find_floors id) db).1 ≡ db
  unfolding find_floors
  find_floors_reads id = ground arith

  -- A request with the method GET leaves the database as it was, whoever sends it.
  pub handle_get_reads :
      (token : Option JwtPayload) (request : Request)
      → is_get request ≡ true
      → (handle o token request db).1 ≡ db
  handle_get_reads token request h = elim (handle-cases token request) [
    | inl behind ↦ rw behind (guarded_reads token request (λ user. handler_reads request user h))
    | inr (_, (id, found)) ↦ rw found (find_floors_reads id)
  ]

  -- A request that needs a token is refused without one, and a request whose roles the user of the token
  -- does not have is refused as well; neither changes anything.
  pub handle_refused :
      (payload : JwtPayload) (request : Request)
      → is_unguarded request ≡ false
      → can_activate (roles_of request) (some (validate payload)) ≡ false
      → (handle o none request db ≡ (err Error.unauthorized, db))
        × (handle o (some payload) request db ≡ (err Error.forbidden, db))
  handle_refused payload request private refused = (
    elim (handle-cases none request) [ inl behind ↦ rw behind refl | inr (is_open, _) ↦ cc ],
    elim (handle-cases (some payload) request) [
      | inl behind ↦ rw (behind, refused) refl
      | inr (is_open, _) ↦ cc
    ],
  )

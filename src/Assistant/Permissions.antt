-- ===== src/Assistant/Permissions.antt =====
-- The tools against those requests of the controllers that they stand for: to which roles a tool is
-- offered, and what its call does to the database.
use smart_parking_management.Prelude.{
  Bool, true, false, not, ◌≡◌, refl, subst, Option, none, some, if◌then◌else◌,
}
use smart_parking_management.Schema.{Db}
use smart_parking_management.Action.{Action, err, Error, throw_if, ◌>>◌}
use smart_parking_management.Auth.{JwtPayload, validate, can_activate}
use smart_parking_management.Api.{Outside}
use smart_parking_management.Api.Lots.{LotRequest}
use smart_parking_management.Api.Slots.{SlotRequest}
use smart_parking_management.Api.Reservations.{ReservationRequest}
use smart_parking_management.Api.Checkpoint.{CheckpointRequest}
use smart_parking_management.Api.Users.{UserRequest}
use smart_parking_management.Api.Notifications.{NotificationRequest}
use smart_parking_management.Api.Routes.{Request, handle}
use smart_parking_management.Assistant.Tools.{ToolName, Args, definition, is_for}
use smart_parking_management.Assistant.Execution.{service_call}

-- The request that a tool stands for; the search in the policies and the location have none.
abbrev pub request_of : (t : ToolName) → Args t → Option Request
request_of ToolName.find_nearby_parking_lots dto =
    some (Request.on_lots (LotRequest.get_nearby dto))
request_of ToolName.list_parking_lots _ = some (Request.on_lots LotRequest.get_lots)
request_of ToolName.get_parking_lot id = some (Request.on_lots (LotRequest.get_lot id))
request_of ToolName.list_parking_lot_floors id = some (Request.on_lots (LotRequest.get_floors id))
request_of ToolName.create_parking_lot dto = some (Request.on_lots (LotRequest.post_lot dto))
request_of ToolName.update_parking_lot (id, dto) =
    some (Request.on_lots (LotRequest.patch_lot id dto))
request_of ToolName.delete_parking_lot id = some (Request.on_lots (LotRequest.delete_lot id))
request_of ToolName.create_parking_floor (id, dto) =
    some (Request.on_lots (LotRequest.post_floor id dto))
request_of ToolName.search_parking_slots dto = some (Request.on_slots (SlotRequest.get_slots dto))
request_of ToolName.get_parking_slot id = some (Request.on_slots (SlotRequest.get_slot id))
request_of ToolName.update_slot_status (id, dto) =
    some (Request.on_slots (SlotRequest.patch_slot id dto))
request_of ToolName.bulk_update_slot_status dto =
    some (Request.on_slots (SlotRequest.patch_bulk_status dto))
request_of ToolName.list_my_reservations _ =
    some (Request.on_reservations ReservationRequest.get_mine)
request_of ToolName.get_reservation id =
    some (Request.on_reservations (ReservationRequest.get_reservation id))
request_of ToolName.list_lot_reservations id =
    some (Request.on_reservations (ReservationRequest.get_reservations id))
request_of ToolName.book_parking_slot dto =
    some (Request.on_reservations (ReservationRequest.post_reservation dto))
request_of ToolName.cancel_reservation id =
    some (Request.on_reservations (ReservationRequest.post_cancel id))
request_of ToolName.check_in_via_qr token =
    some (Request.at_checkpoint (CheckpointRequest.post_check_in token))
request_of ToolName.check_out_via_qr token =
    some (Request.at_checkpoint (CheckpointRequest.post_check_out token))
request_of ToolName.get_my_profile _ = some (Request.on_users UserRequest.get_me)
request_of ToolName.get_my_payment_method _ =
    some (Request.on_users UserRequest.get_my_payment_method)
request_of ToolName.list_all_users _ = some (Request.on_users UserRequest.get_users)
request_of ToolName.get_user id = some (Request.on_users (UserRequest.get_user id))
request_of ToolName.update_my_profile dto = some (Request.on_users (UserRequest.patch_me dto))
request_of ToolName.block_user id = some (Request.on_users (UserRequest.patch_block id))
request_of ToolName.unblock_user id = some (Request.on_users (UserRequest.patch_unblock id))
request_of ToolName.update_user (id, dto) = some (Request.on_users (UserRequest.patch_user id dto))
request_of ToolName.remove_manager id = some (Request.on_users (UserRequest.delete_manager id))
request_of ToolName.list_my_notifications _ =
    some (Request.on_notifications NotificationRequest.get_mine_notifications)
request_of ToolName.mark_notifications_read _ =
    some (Request.on_notifications NotificationRequest.patch_mine_read)
request_of ToolName.search_company_policies _ = none
request_of ToolName.get_user_location _ = none

guard_if :
    (allowed : Bool) (m : Action (Unit {0})) (db : Db)
    → (throw_if (not allowed) Error.forbidden >> m) db
      ≡ (if allowed then m db else (err Error.forbidden, db))
guard_if true m db = refl
guard_if false m db = refl

module _ (o : Outside) (payload : JwtPayload) where
  -- What a call does if the tool is not to be had for a role that it is not for.
  abbrev pub call_if_offered : (t : ToolName) → Args t → Action (Unit {0})
  call_if_offered t args db =
      if is_for payload.role (definition t).roles
      then service_call o t (validate payload) args db
      else (err Error.forbidden, db)

  guarded_call :
      (t : ToolName) (args : Args t) (db : Db)
      → (throw_if (not (is_for payload.role (definition t).roles)) Error.forbidden
            >> service_call o t (validate payload) args)
          db
        ≡ call_if_offered t args db
  guarded_call t args db =
      guard_if (is_for payload.role (definition t).roles) (service_call o t (validate payload) args)
        db

  abbrev IsSame : (t : ToolName) → Args t → Db → Option Request → Type 0
  IsSame t args db none = Unit
  IsSame t args db (some request) = handle o (some payload) request db ≡ call_if_offered t args db

  IsSame-as_request :
      (t : ToolName) (args : Args t) (db : Db) → IsSame t args db (request_of t args)
  unfolding definition service_call handle can_activate
  IsSame-as_request ToolName.find_nearby_parking_lots args db = refl
  IsSame-as_request ToolName.list_parking_lots args db = refl
  IsSame-as_request ToolName.get_parking_lot args db = refl
  IsSame-as_request ToolName.list_parking_lot_floors args db = refl
  IsSame-as_request ToolName.create_parking_lot args db =
      guarded_call ToolName.create_parking_lot args db
  IsSame-as_request ToolName.update_parking_lot args db =
      guarded_call ToolName.update_parking_lot args db
  IsSame-as_request ToolName.delete_parking_lot args db =
      guarded_call ToolName.delete_parking_lot args db
  IsSame-as_request ToolName.create_parking_floor args db =
      guarded_call ToolName.create_parking_floor args db
  IsSame-as_request ToolName.search_parking_slots args db = refl
  IsSame-as_request ToolName.get_parking_slot args db = refl
  IsSame-as_request ToolName.update_slot_status args db =
      guarded_call ToolName.update_slot_status args db
  IsSame-as_request ToolName.bulk_update_slot_status args db =
      guarded_call ToolName.bulk_update_slot_status args db
  IsSame-as_request ToolName.list_my_reservations args db = refl
  IsSame-as_request ToolName.get_reservation args db = refl
  IsSame-as_request ToolName.list_lot_reservations args db =
      guarded_call ToolName.list_lot_reservations args db
  IsSame-as_request ToolName.book_parking_slot args db =
      guarded_call ToolName.book_parking_slot args db
  IsSame-as_request ToolName.cancel_reservation args db = refl
  IsSame-as_request ToolName.check_in_via_qr args db = guarded_call ToolName.check_in_via_qr args db
  IsSame-as_request ToolName.check_out_via_qr args db =
      guarded_call ToolName.check_out_via_qr args db
  IsSame-as_request ToolName.get_my_profile args db = refl
  IsSame-as_request ToolName.get_my_payment_method args db = refl
  IsSame-as_request ToolName.list_all_users args db = guarded_call ToolName.list_all_users args db
  IsSame-as_request ToolName.get_user args db = guarded_call ToolName.get_user args db
  IsSame-as_request ToolName.update_my_profile args db = refl
  IsSame-as_request ToolName.block_user args db = guarded_call ToolName.block_user args db
  IsSame-as_request ToolName.unblock_user args db = guarded_call ToolName.unblock_user args db
  IsSame-as_request ToolName.update_user args db = guarded_call ToolName.update_user args db
  IsSame-as_request ToolName.remove_manager args db = guarded_call ToolName.remove_manager args db
  IsSame-as_request ToolName.list_my_notifications args db = refl
  IsSame-as_request ToolName.mark_notifications_read args db = refl
  IsSame-as_request ToolName.search_company_policies args db = tt
  IsSame-as_request ToolName.get_user_location args db = tt

  -- For a tool that stands for a request: the request is refused as forbidden where the tool is not
  -- offered to the user's role, and else it succeeds or throws as the tool's call does, with the same
  -- error, and leaves the same database. The bodies of the answers are not compared.
  pub tool_agrees_with_request :
      (t : ToolName) (args : Args t) (request : Request) (db : Db)
      → request_of t args ≡ some request
      → handle o (some payload) request db ≡ call_if_offered t args db
  tool_agrees_with_request t args request db e =
      subst (IsSame t args db) e (IsSame-as_request t args db)

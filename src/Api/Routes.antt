-- ===== src/Api/Routes.antt =====
-- The requests of seven controllers together, each behind its guards; the list of a lot's floors has none.
-- The requests of auth.controller.ts and of assistant.controller.ts are not among them.
use smart_parking_management.Prelude.{Option, List}
use smart_parking_management.Schema.Status.{Role}
use smart_parking_management.Action.{Action}
use smart_parking_management.Environment.{AuthenticatedUser}
use smart_parking_management.Auth.{JwtPayload}
use smart_parking_management.Lots.Availability.{find_floors}
use smart_parking_management.Api.{Outside, done, guarded}
use smart_parking_management.Api.Lots.{LotRequest, lot_roles, lot_handler}
use smart_parking_management.Api.Slots.{SlotRequest, slot_roles, slot_handler}
use smart_parking_management.Api.Reservations.{
  ReservationRequest, reservation_roles, reservation_handler,
}
use smart_parking_management.Api.Checkpoint.{
  CheckpointRequest, checkpoint_roles, checkpoint_handler,
}
use smart_parking_management.Api.Users.{UserRequest, user_roles, user_handler}
use smart_parking_management.Api.Policies.{PolicyRequest, policy_roles, policy_handler}
use smart_parking_management.Api.Notifications.{
  NotificationRequest, notification_roles, notification_handler,
}

pub data Request : Type 0 where
  on_lots : LotRequest → Request
  on_slots : SlotRequest → Request
  on_reservations : ReservationRequest → Request
  at_checkpoint : CheckpointRequest → Request
  on_users : UserRequest → Request
  on_policies : PolicyRequest → Request
  on_notifications : NotificationRequest → Request

abbrev pub roles_of : Request → Option (List Role)
roles_of (Request.on_lots r) = lot_roles r
roles_of (Request.on_slots r) = slot_roles r
roles_of (Request.on_reservations r) = reservation_roles r
roles_of (Request.at_checkpoint r) = checkpoint_roles r
roles_of (Request.on_users r) = user_roles r
roles_of (Request.on_policies r) = policy_roles r
roles_of (Request.on_notifications r) = notification_roles r

abbrev pub handler : Outside → Request → AuthenticatedUser → Action (Unit {0})
handler o (Request.on_lots r) = lot_handler o r
handler o (Request.on_slots r) = slot_handler o r
handler o (Request.on_reservations r) = reservation_handler o r
handler o (Request.at_checkpoint r) = checkpoint_handler o r
handler o (Request.on_users r) = user_handler o r
handler o (Request.on_policies r) = policy_handler o r
handler o (Request.on_notifications r) = notification_handler o r

-- A request with the token that it brings, if that is valid.
unfoldable pub handle : Outside → Option JwtPayload → Request → Action (Unit {0})
handle o token (Request.on_lots (LotRequest.get_floors lot_id)) = done (find_floors lot_id)
handle o token request = guarded token (roles_of request) (handler o request)

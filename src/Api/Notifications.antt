-- ===== src/Api/Notifications.antt =====
-- backend/src/modules/notification/notification.controller.ts
use smart_parking_management.Prelude.{Option, none, List}
use smart_parking_management.Schema.Status.{Role}
use smart_parking_management.Action.{Action}
use smart_parking_management.Environment.{AuthenticatedUser}
use smart_parking_management.Services.{find_mine, mark_all_read}
use smart_parking_management.Api.{Outside, queried}

pub data NotificationRequest : Type 0 where
  get_mine_notifications patch_mine_read : NotificationRequest

abbrev pub notification_roles : NotificationRequest → Option (List Role)
notification_roles _ = none

abbrev pub notification_handler :
    Outside → NotificationRequest → AuthenticatedUser → Action (Unit {0})
notification_handler o NotificationRequest.get_mine_notifications user =
    queried (λ db. find_mine user.user_id db.notifications)
notification_handler o NotificationRequest.patch_mine_read user = mark_all_read user.user_id

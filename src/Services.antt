-- ===== src/Services.antt =====
-- The two services that every other one writes through: backend/src/common/audit/audit.service.ts
-- and backend/src/common/notification/notification.service.ts. The title and the message of a
-- notification and the metadata of an audit entry are display text, and are left out.

pub mod Idempotence
use smart_parking_management.Prelude.{
  ℕ, Bool, true, false, ◌&&◌, Option, none, some, List, ◌∷◌, find_many, update_many, any, not,
  if◌then◌else◌, ◌==◌,
}
use smart_parking_management.Schema.{Notification}
use smart_parking_management.Schema.Status.{
  AuditAction, NotificationType, NotificationType-discrete, NotificationRecipientRole,
}
use smart_parking_management.Action.{Action, ok, modify}

-- `AuditService.log`
abbrev pub log : ℕ → AuditAction → Option ℕ → Action (Unit {0})
log entity_id action user_id = modify λ db. record db {
  audit_logs = record { entity_id = entity_id; action = action; user_id = user_id } ∷ db.audit_logs;
}

pub record NotifyParams : Type 0 where
  pub recipient_id : ℕ
  pub recipient_role : NotificationRecipientRole
  pub notification_type : NotificationType
  pub reservation_id : Option ℕ
  pub for_checkout_at : Option ℕ

abbrev pub same_id : ℕ → Option ℕ → Bool
same_id a none = false
same_id a (some b) = a == b

abbrev pub same_notification_type : NotificationType → NotificationType → Bool
same_notification_type a b = elim (NotificationType-discrete a b) [ yes _ ↦ true | no _ ↦ false ]

-- The unique key (recipientId, reservationId, type, forCheckoutAt).
abbrev pub has_key : ℕ → ℕ → NotificationType → ℕ → Notification → Bool
has_key recipient reservation type at n =
    n.recipient_id == recipient
    && same_id reservation n.reservation_id
    && same_notification_type n.notification_type type
    && same_id at n.for_checkout_at

-- Whether this cycle's notification is there already; a one-off notification has no key.
unfoldable pub already_sent : NotifyParams → Option ℕ → Option ℕ → List Notification → Bool
already_sent params (some reservation) (some at) =
    any (has_key params.recipient_id reservation params.notification_type at)
already_sent params none _ = λ _. false
already_sent params (some _) none = λ _. false

abbrev pub notification_row : NotifyParams → Notification
notification_row params = record {
  recipient_id = params.recipient_id;
  recipient_role = params.recipient_role;
  reservation_id = params.reservation_id;
  notification_type = params.notification_type;
  for_checkout_at = params.for_checkout_at;
  is_read = false;
}

-- `NotificationService.notify`, on the table: false, and no row, if it was sent already.
unfoldable pub notify_table : NotifyParams → List Notification → Bool × List Notification
unfolding already_sent
notify_table params ns =
    if already_sent params params.reservation_id params.for_checkout_at ns
    then (false, ns)
    else (true, notification_row params ∷ ns)

abbrev pub notify : NotifyParams → Action Bool
notify params db =
    let (sent, ns) = notify_table params db.notifications in
    (ok sent, record db { notifications = ns })

-- `NotificationService.findMine`, less the order by creation time.
abbrev pub find_mine : ℕ → List Notification → List Notification
find_mine recipient = find_many (λ n. n.recipient_id == recipient)

-- `NotificationService.markAllRead`
abbrev pub mark_all_read : ℕ → Action (Unit {0})
mark_all_read recipient = modify λ db. record db {
  notifications =
      update_many (λ n. n.recipient_id == recipient && not n.is_read)
        (λ n. record n { is_read = true }) db.notifications;
}

-- ===== src/Services/Idempotence.antt =====
-- The notifications that belong to a checkout cycle, when `notify` is called again.
use smart_parking_management.Prelude.{
  ℕ, Bool, true, false, ◌≡◌, refl, some, List, any, ==_refl, Bool-cases, inl, inr,
}
use smart_parking_management.Schema.{Db, Notification}
use smart_parking_management.Schema.Status.{
  NotificationType, NotificationType-discrete, NotificationRecipientRole,
}
use smart_parking_management.Action.{ok}
use smart_parking_management.Services.{
  NotifyParams, same_notification_type, already_sent, has_key, notification_row, notify_table,
  notify,
}

same_notification_type_refl : (t : NotificationType) → same_notification_type t t ≡ true
same_notification_type_refl t =
    elim (NotificationType-discrete t t)
      as (λ d. (elim d as (λ _. Bool) [ yes _ ↦ true | no _ ↦ false ]) ≡ true) [
        | yes _ ↦ refl
        | no differ ↦ absurd (differ refl)
      ]

-- The notification of a cycle: one for a reservation and an end of its parking time.
abbrev pub cycle_params : ℕ → NotificationRecipientRole → NotificationType → ℕ → ℕ → NotifyParams
cycle_params recipient role type reservation at = record {
  recipient_id = recipient;
  recipient_role = role;
  notification_type = type;
  reservation_id = some reservation;
  for_checkout_at = some at;
}

-- The row of a notification carries its own key.
has_key_row :
    (recipient : ℕ) (role : NotificationRecipientRole) (type : NotificationType)
    (reservation at : ℕ)
    → has_key recipient reservation type at
        (notification_row (cycle_params recipient role type reservation at))
      ≡ true
has_key_row recipient role type reservation at = simp (==_refl, same_notification_type_refl)

already_sent_after :
    (recipient : ℕ) (role : NotificationRecipientRole) (type : NotificationType)
    (reservation at : ℕ) (ns : List Notification)
    → let params = cycle_params recipient role type reservation at in
      already_sent params (some reservation) (some at) (notify_table params ns).1 ≡ true
unfolding notify_table
already_sent_after recipient role type reservation at ns =
    elim (Bool-cases (any (has_key recipient reservation type at) ns)) [
      | inl sent ↦ rw sent sent
      | inr unsent ↦ rw unsent (rw (has_key_row recipient role type reservation at))
    ]

-- Sending the notification of a cycle a second time adds no row and says that it was there.
pub notify_again :
    (recipient : ℕ) (role : NotificationRecipientRole) (type : NotificationType)
    (reservation at : ℕ) (db : Db)
    → let params = cycle_params recipient role type reservation at in
      notify params (notify params db).1 ≡ (ok false, (notify params db).1)
unfolding notify_table
notify_again recipient role type reservation at db =
    rw (already_sent_after recipient role type reservation at db.notifications)

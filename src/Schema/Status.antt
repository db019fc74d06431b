-- ===== src/Schema/Status.antt =====
-- The enums of backend/prisma/schema.prisma, the comparisons that the services make with their
-- values, and the types of notification and audit entry that the services write.
use smart_parking_management.Prelude.{Bool, true, false}

pub data Role : Type 0 where
  admin manager customer : Role

pub data SlotType : Type 0 where
  standard large : SlotType

pub data SlotStatus : Type 0 where
  available reserved occupied maintenance : SlotStatus

pub data ReservationStatus : Type 0 where
  confirmed checked_in overtime pending_payment completed cancelled : ReservationStatus

pub data PaymentStatus : Type 0 where
  pending successful failed refunded : PaymentStatus

pub data QrCodeType : Type 0 where
  check_in check_out : QrCodeType

pub data QrCodeStatus : Type 0 where
  active used expired : QrCodeStatus

pub data ChallanType : Type 0 where
  extension overtime : ChallanType

pub data NotificationRecipientRole : Type 0 where
  user manager : NotificationRecipientRole

pub data NotificationType : Type 0 where
  reservation_confirmed payment_completed checkout_success checkout_completed : NotificationType
  reservation_cancelled reservation_expired checkin_success payment_declined : NotificationType
  checkout_reminder_15min checkout_time_reached grace_period_warning : NotificationType
  vehicle_removal_notice staff_intervention_required auto_extended : NotificationType

pub data AuditAction : Type 0 where
  reservation_created checkout_payment_confirmed checkout_payment_failed : AuditAction
  reservation_cancelled_by_user reservation_auto_cancelled_no_show checked_in : AuditAction
  checkout_payment_declined checked_out overtime_flagged reservation_auto_extended : AuditAction
  user_blocked user_unblocked role_changed profile_updated : AuditAction
  profile_updated_by_admin staff_created_by_admin password_changed : AuditAction
  payment_method_saved parking_floor_updated parking_floor_created : AuditAction
  parking_floor_deleted parking_lot_created manager_deleted_by_admin : AuditAction
  user_self_deleted : AuditAction

-- The names that `detectCardBrand` of users.service.ts gives to a card.
pub data CardBrand : Type 0 where
  visa mastercard card : CardBrand

pub NotificationType-discrete : Discrete NotificationType
NotificationType-discrete = hlevel

abbrev pub is_confirmed : ReservationStatus → Bool
is_confirmed ReservationStatus.confirmed = true
is_confirmed _ = false

abbrev pub is_checked_in : ReservationStatus → Bool
is_checked_in ReservationStatus.checked_in = true
is_checked_in _ = false

abbrev pub is_overtime : ReservationStatus → Bool
is_overtime ReservationStatus.overtime = true
is_overtime _ = false

abbrev pub is_pending_payment : ReservationStatus → Bool
is_pending_payment ReservationStatus.pending_payment = true
is_pending_payment _ = false

-- `notIn: [CANCELLED, COMPLETED]`
abbrev pub is_open : ReservationStatus → Bool
is_open ReservationStatus.completed = false
is_open ReservationStatus.cancelled = false
is_open _ = true

abbrev pub is_available : SlotStatus → Bool
is_available SlotStatus.available = true
is_available _ = false

abbrev pub is_reserved : SlotStatus → Bool
is_reserved SlotStatus.reserved = true
is_reserved _ = false

abbrev pub is_occupied : SlotStatus → Bool
is_occupied SlotStatus.occupied = true
is_occupied _ = false

abbrev pub is_maintenance : SlotStatus → Bool
is_maintenance SlotStatus.maintenance = true
is_maintenance _ = false

abbrev pub is_customer : Role → Bool
is_customer Role.customer = true
is_customer _ = false

abbrev pub is_manager : Role → Bool
is_manager Role.manager = true
is_manager _ = false

-- `role === ADMIN || role === MANAGER`
abbrev pub is_staff : Role → Bool
is_staff Role.customer = false
is_staff _ = true

abbrev pub same_qr_type : QrCodeType → QrCodeType → Bool
same_qr_type QrCodeType.check_in QrCodeType.check_in = true
same_qr_type QrCodeType.check_out QrCodeType.check_out = true
same_qr_type _ _ = false

abbrev pub is_active_code : QrCodeStatus → Bool
is_active_code QrCodeStatus.active = true
is_active_code _ = false

abbrev pub same_challan_type : ChallanType → ChallanType → Bool
same_challan_type ChallanType.extension ChallanType.extension = true
same_challan_type ChallanType.overtime ChallanType.overtime = true
same_challan_type _ _ = false

abbrev pub same_role : Role → Role → Bool
same_role Role.admin Role.admin = true
same_role Role.manager Role.manager = true
same_role Role.customer Role.customer = true
same_role _ _ = false

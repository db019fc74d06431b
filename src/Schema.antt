-- ===== src/Schema.antt =====
-- The database (backend/prisma/schema.prisma): one record type for each table, with the columns
-- that the services decide on, and the tables together as one value.
-- Ids, tokens and users are only compared, so they are numbers; times are milliseconds since the
-- epoch; money is in cents, as the columns are Decimal(10, 2). Texts are lists of UTF-16 units.
pub mod Status
use smart_parking_management.Prelude.{ℕ, Bool, Option, List}
use Status.{
  CardBrand, Role, SlotType, SlotStatus, ReservationStatus, PaymentStatus, QrCodeType, QrCodeStatus,
  ChallanType, NotificationRecipientRole, NotificationType, AuditAction,
}

abbrev pub Text : Type 0
Text = List ℕ

pub record User : Type 0 where
  pub id : ℕ
  pub email : Text
  pub password : Text
  pub first_name : Text
  pub last_name : Text
  pub role : Role
  pub is_blocked : Bool

pub record PaymentMethod : Type 0 where
  pub user_id : ℕ
  pub cardholder_name : Text
  pub brand : CardBrand
  pub last4 : Text
  pub expiry_month : ℕ
  pub expiry_year : ℕ

-- The coordinates are only handed on to the database, which computes distances, so they are numbers.
pub record ParkingLot : Type 0 where
  pub id : ℕ
  pub name : Text
  pub address : Text
  pub latitude : ℕ
  pub longitude : ℕ
  pub manager_id : ℕ
  pub is_active : Bool

pub record ParkingFloor : Type 0 where
  pub id : ℕ
  pub lot_id : ℕ
  pub name : Text
  pub floor_number : ℕ
  pub rows : ℕ
  pub columns : ℕ

pub record ParkingSlot : Type 0 where
  pub id : ℕ
  pub lot_id : ℕ
  pub floor_id : ℕ
  pub slot_number : Text
  pub slot_type : SlotType
  pub status : SlotStatus
  pub restricted_reason : Option Text
  pub base_price : ℕ

pub record Reservation : Type 0 where
  pub id : ℕ
  pub user_id : ℕ
  pub lot_id : ℕ
  pub slot_id : ℕ
  pub start_time : ℕ
  pub end_time : ℕ
  pub total_price : ℕ
  pub status : ReservationStatus
  pub checked_in_at : Option ℕ
  pub checked_out_at : Option ℕ

pub record Payment : Type 0 where
  pub reservation_id : ℕ
  pub amount : ℕ
  pub status : PaymentStatus
  pub paid_at : Option ℕ

pub record QrCode : Type 0 where
  pub id : ℕ
  pub reservation_id : ℕ
  pub qr_type : QrCodeType
  pub token : ℕ
  pub status : QrCodeStatus
  pub expires_at : Option ℕ
  pub used_at : Option ℕ

pub record Challan : Type 0 where
  pub reservation_id : ℕ
  pub challan_type : ChallanType
  pub amount : ℕ
  pub for_checkout_at : ℕ

pub record Notification : Type 0 where
  pub recipient_id : ℕ
  pub recipient_role : NotificationRecipientRole
  pub reservation_id : Option ℕ
  pub notification_type : NotificationType
  pub for_checkout_at : Option ℕ
  pub is_read : Bool

pub record PolicyDocument : Type 0 where
  pub id : ℕ
  pub title : Text
  pub filename : Text
  pub uploaded_by : ℕ

-- The embedding of a chunk is a function of its content, and is left out.
pub record PolicyChunk : Type 0 where
  pub document_id : ℕ
  pub content : Text
  pub chunk_index : ℕ

pub record AuditLog : Type 0 where
  pub entity_id : ℕ
  pub action : AuditAction
  pub user_id : Option ℕ

pub record Db : Type 0 where
  pub users : List User
  pub payment_methods : List PaymentMethod
  pub lots : List ParkingLot
  pub floors : List ParkingFloor
  pub slots : List ParkingSlot
  pub reservations : List Reservation
  pub payments : List Payment
  pub qr_codes : List QrCode
  pub challans : List Challan
  pub notifications : List Notification
  pub audit_logs : List AuditLog
  pub policy_documents : List PolicyDocument
  pub policy_chunks : List PolicyChunk

-- ===== src/Tests/Data.antt =====
-- The inputs of the runs: a lot, its slots, settings, times and tables.
use smart_parking_management.Prelude.{
  ℕ, ◌+◌, ◌-◌, ◌*◌, ◌≡◌, refl, arith, Bool, false, true, none, some, [], ◌∷◌, length,
}
use smart_parking_management.Tables.{same_text}
use smart_parking_management.Lots.{LotIds}
use smart_parking_management.Auth.{JwtPayload}
use smart_parking_management.Api.{Outside}
use smart_parking_management.Schema.{
  ParkingFloor, Text, User, PaymentMethod, Db, ParkingLot, ParkingSlot, Reservation, QrCode,
}
use smart_parking_management.Schema.Status.{
  CardBrand, Role, SlotType, SlotStatus, ReservationStatus, QrCodeType, QrCodeStatus,
}
use smart_parking_management.Environment.{Env, Ids, AuthenticatedUser, default_config}
use smart_parking_management.Reservations.{CreateReservationDto}
use smart_parking_management.Checkpoint.{CodeIds}
use smart_parking_management.Monitoring.{ActiveReservation}

abbrev pub slot_a1 : ParkingSlot
slot_a1 = record {
  id = 5;
  lot_id = 1;
  floor_id = 2;
  slot_number = b'A' ∷ b'1' ∷ [];
  slot_type = SlotType.standard;
  status = SlotStatus.available;
  restricted_reason = none;
  base_price = 250;
}

abbrev pub slot_a2 : ParkingSlot
slot_a2 = record slot_a1 {
  id = 6;
  slot_number = b'A' ∷ b'2' ∷ [];
  status = SlotStatus.maintenance;
  restricted_reason = some (b'X' ∷ []);
}

-- One row of two slots.
abbrev pub floor_two : ParkingFloor
floor_two = record { id = 2; lot_id = 1; name = b'G' ∷ []; floor_number = 0; rows = 1; columns = 2 }

abbrev pub lot_one : ParkingLot
lot_one = record {
  id = 1;
  name = b'L' ∷ [];
  address = b'S' ∷ [];
  latitude = 51;
  longitude = 7;
  manager_id = 9;
  is_active = true;
}

abbrev pub customer_7 : User
customer_7 = record {
  id = 7;
  email = b'a' ∷ b'@' ∷ b'x' ∷ [];
  password = b'p' ∷ [];
  first_name = b'A' ∷ [];
  last_name = b'X' ∷ [];
  role = Role.customer;
  is_blocked = false;
}

abbrev pub customer_8 : User
customer_8 = record customer_7 { id = 8; email = b'b' ∷ b'@' ∷ b'x' ∷ [] }

abbrev pub manager_9 : User
manager_9 = record customer_7 { id = 9; email = b'm' ∷ b'@' ∷ b'x' ∷ []; role = Role.manager }

abbrev pub card_of : ℕ → Text → PaymentMethod
card_of user_id last4 = record {
  user_id = user_id;
  cardholder_name = b'A' ∷ [];
  brand = CardBrand.visa;
  last4 = last4;
  expiry_month = 12;
  expiry_year = 2030;
}

-- User 7 has a card that is accepted, user 8 one that is declined.
abbrev pub opening_db : Db
opening_db = record {
  users = customer_7 ∷ customer_8 ∷ manager_9 ∷ [];
  payment_methods =
      card_of 7 (b'4' ∷ b'2' ∷ b'4' ∷ b'2' ∷ []) ∷ card_of 8 (b'0' ∷ b'0' ∷ b'0' ∷ b'0' ∷ []) ∷ [];
  lots = lot_one ∷ [];
  floors = floor_two ∷ [];
  slots = slot_a1 ∷ slot_a2 ∷ [];
  reservations = [];
  payments = [];
  qr_codes = [];
  challans = [];
  notifications = [];
  audit_logs = [];
  policy_documents = [];
  policy_chunks = [];
}

abbrev pub env_at : ℕ → Env
env_at now = record { config = default_config; now = now; start_of_today = 950_400_000 }

abbrev pub morning : Env
morning = env_at 1_000_000_000

abbrev pub new_ids : Ids
new_ids = record { reservation_id = 20; qr_id = 21; qr_token = 22 }

abbrev pub exit_ids : CodeIds
exit_ids = record { qr_id = 31; qr_token = 32 }

-- Slot A1 for 90 minutes, one hour from now.
abbrev pub request : CreateReservationDto
request = record { slot_id = 5; arrival_time = 1_003_600_000; duration_minutes = 90 }

abbrev pub booking : Reservation
booking = record {
  id = 20;
  user_id = 7;
  lot_id = 1;
  slot_id = 5;
  start_time = 1_003_600_000;
  end_time = 1_009_000_000;
  total_price = 500;
  status = ReservationStatus.confirmed;
  checked_in_at = none;
  checked_out_at = none;
}

abbrev pub parking : Reservation
parking = record booking {
  status = ReservationStatus.checked_in;
  checked_in_at = some 1_003_600_000;
}

abbrev pub entry_code : QrCode
entry_code = record {
  id = 21;
  reservation_id = 20;
  qr_type = QrCodeType.check_in;
  token = 22;
  status = QrCodeStatus.active;
  expires_at = some 1_007_200_000;
  used_at = none;
}

abbrev pub exit_code : QrCode
exit_code = record {
  id = 31;
  reservation_id = 20;
  qr_type = QrCodeType.check_out;
  token = 32;
  status = QrCodeStatus.active;
  expires_at = none;
  used_at = none;
}

-- The booking waits for its customer.
abbrev pub booked_db : Db
booked_db = record opening_db { reservations = booking ∷ []; qr_codes = entry_code ∷ [] }

-- The customer has parked.
abbrev pub parked_db : Db
parked_db = record opening_db { reservations = parking ∷ []; qr_codes = exit_code ∷ [] }

-- A customer whose card is declined has parked.
abbrev pub parked_unpaid_db : Db
parked_unpaid_db = record parked_db { reservations = record parking { user_id = 8 } ∷ [] }

-- The reservation as the job loads it.
abbrev pub active : ActiveReservation
active = record { reservation = parking; slot = slot_a1; lot = lot_one }

abbrev pub manager_of_lot : AuthenticatedUser
manager_of_lot = record { user_id = 9; role = Role.manager }

-- A stand-in for a hash: the password with the salt in front.
abbrev pub salted : Text → ℕ → Text
salted password salt = salt ∷ password

abbrev pub matches_salted : Text → Text → Bool
matches_salted password [] = false
matches_salted password (salt ∷ rest) = same_text password rest

pub same_text_refl : (s : Text) → same_text s s ≡ true
same_text_refl [] = refl
same_text_refl (c ∷ s) = ground (arith, same_text_refl s)

-- A stand-in for the distance: 20 m for each degree of latitude.
abbrev pub flat_distance : ℕ → ℕ → ParkingLot → ℕ
flat_distance latitude longitude lot =
    ((latitude - lot.latitude) + (lot.latitude - latitude)) * 20_000

abbrev pub lot_ids : LotIds
lot_ids = record {
  lot_id = 3;
  floor_id = λ n. 100 + n;
  slot_id = λ floor number. 1000 + floor * 10 + length number;
}

abbrev pub outside : Outside
outside = record {
  env = morning;
  ids = new_ids;
  code_ids = exit_ids;
  lot_ids = lot_ids;
  new_id = 77;
  slot_id = λ number. 2000 + length number;
  salt = 3;
  hash = salted;
  compare = matches_salted;
  same_name = same_text;
  distance = flat_distance;
  post_matrix = λ _ _. none;
  similarity = λ query content. length content;
}

abbrev pub user_7 : AuthenticatedUser
user_7 = record { user_id = 7; role = Role.customer }

abbrev pub payload_7 : JwtPayload
payload_7 = record { sub = 7; email = b'a' ∷ b'@' ∷ b'x' ∷ []; role = Role.customer }

abbrev pub manager_user : AuthenticatedUser
manager_user = record { user_id = 9; role = Role.manager }

-- A second lot, far away and not active, of another manager.
abbrev pub lot_two : ParkingLot
lot_two = record lot_one {
  id = 2;
  name = b'M' ∷ [];
  latitude = 60;
  manager_id = 7;
  is_active = false;
}

abbrev pub two_lots : Db
two_lots = record opening_db { lots = lot_two ∷ lot_one ∷ [] }

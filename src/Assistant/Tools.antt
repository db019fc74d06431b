-- ===== src/Assistant/Tools.antt =====
-- The tools of backend/src/modules/assistant/tools, and `forRole` of
-- backend/src/modules/assistant/tool-registry.ts.
use smart_parking_management.Prelude.{
  ℕ, Bool, true, false, Option, none, some, List, [], ◌∷◌, ◌++◌, find_many,
}
use smart_parking_management.Schema.{Text}
use smart_parking_management.Schema.Status.{Role}
use smart_parking_management.Reservations.{CreateReservationDto}
use smart_parking_management.ParkingSlots.{
  FindSlotsDto, UpdateSlotStatusDto, BulkUpdateSlotStatusDto,
}
use smart_parking_management.Users.{UpdateProfileDto}
use smart_parking_management.Floors.{CreateFloorInputDto}
use smart_parking_management.Lots.{CreateParkingLotDto, UpdateParkingLotDto}
use smart_parking_management.Lots.Maps.{FindNearbyLotsDto}
use smart_parking_management.Auth.{has_role}
use smart_parking_management.Api.{staff_only, admin_only, customer_only}

pub data ToolName : Type 0 where
  find_nearby_parking_lots list_parking_lots get_parking_lot list_parking_lot_floors : ToolName
  create_parking_lot update_parking_lot delete_parking_lot create_parking_floor : ToolName
  search_parking_slots get_parking_slot update_slot_status bulk_update_slot_status : ToolName
  list_my_reservations get_reservation list_lot_reservations book_parking_slot : ToolName
  cancel_reservation check_in_via_qr check_out_via_qr : ToolName
  get_my_profile get_my_payment_method list_all_users get_user update_my_profile : ToolName
  block_user unblock_user update_user remove_manager : ToolName
  list_my_notifications mark_notifications_read search_company_policies : ToolName
  get_user_location : ToolName

-- What the tool's schema lets the model give it.
abbrev pub Args : ToolName → Type 0
Args ToolName.find_nearby_parking_lots = FindNearbyLotsDto
Args ToolName.get_parking_lot = ℕ
Args ToolName.list_parking_lot_floors = ℕ
Args ToolName.create_parking_lot = CreateParkingLotDto
Args ToolName.update_parking_lot = ℕ × UpdateParkingLotDto
Args ToolName.delete_parking_lot = ℕ
Args ToolName.create_parking_floor = ℕ × CreateFloorInputDto
Args ToolName.search_parking_slots = FindSlotsDto
Args ToolName.get_parking_slot = ℕ
Args ToolName.update_slot_status = ℕ × UpdateSlotStatusDto
Args ToolName.bulk_update_slot_status = BulkUpdateSlotStatusDto
Args ToolName.get_reservation = ℕ
Args ToolName.list_lot_reservations = ℕ
Args ToolName.book_parking_slot = CreateReservationDto
Args ToolName.cancel_reservation = ℕ
Args ToolName.check_in_via_qr = ℕ
Args ToolName.check_out_via_qr = ℕ
Args ToolName.get_user = ℕ
Args ToolName.update_my_profile = UpdateProfileDto
Args ToolName.block_user = ℕ
Args ToolName.unblock_user = ℕ
Args ToolName.update_user = ℕ × UpdateProfileDto
Args ToolName.remove_manager = ℕ
Args ToolName.search_company_policies = Text
Args _ = Unit {0}

pub record ToolDefinition : Type 0 where
  pub roles : Option (List Role)
  pub mutating : Bool
  pub needs_location : Bool

abbrev pub reads : Option (List Role) → ToolDefinition
reads roles = record { roles = roles; mutating = false; needs_location = false }

abbrev pub mutates : Option (List Role) → ToolDefinition
mutates roles = record { roles = roles; mutating = true; needs_location = false }

-- The descriptors that the `build…Tools` functions give.
unfoldable pub definition : ToolName → ToolDefinition
definition ToolName.find_nearby_parking_lots = reads none
definition ToolName.list_parking_lots = reads none
definition ToolName.get_parking_lot = reads none
definition ToolName.list_parking_lot_floors = reads none
definition ToolName.create_parking_lot = mutates staff_only
definition ToolName.update_parking_lot = mutates staff_only
definition ToolName.delete_parking_lot = mutates staff_only
definition ToolName.create_parking_floor = mutates staff_only
definition ToolName.search_parking_slots = reads none
definition ToolName.get_parking_slot = reads none
definition ToolName.update_slot_status = mutates staff_only
definition ToolName.bulk_update_slot_status = mutates staff_only
definition ToolName.list_my_reservations = reads none
definition ToolName.get_reservation = reads none
definition ToolName.list_lot_reservations = reads staff_only
definition ToolName.book_parking_slot = mutates customer_only
definition ToolName.cancel_reservation = mutates none
definition ToolName.check_in_via_qr = mutates staff_only
definition ToolName.check_out_via_qr = mutates staff_only
definition ToolName.get_my_profile = reads none
definition ToolName.get_my_payment_method = reads none
definition ToolName.list_all_users = reads admin_only
definition ToolName.get_user = reads admin_only
definition ToolName.update_my_profile = mutates none
definition ToolName.block_user = mutates admin_only
definition ToolName.unblock_user = mutates admin_only
definition ToolName.update_user = mutates admin_only
definition ToolName.remove_manager = mutates admin_only
definition ToolName.list_my_notifications = reads none
definition ToolName.mark_notifications_read = mutates none
definition ToolName.search_company_policies = reads none
definition ToolName.get_user_location = record {
  roles = none;
  mutating = false;
  needs_location = true;
}

-- `buildParkingLotTools`
abbrev pub lot_tools : List ToolName
lot_tools =
    ToolName.find_nearby_parking_lots ∷ ToolName.list_parking_lots ∷ ToolName.get_parking_lot
    ∷ ToolName.list_parking_lot_floors ∷ ToolName.create_parking_lot ∷ ToolName.update_parking_lot
    ∷ ToolName.delete_parking_lot ∷ ToolName.create_parking_floor ∷ []

-- `buildParkingSlotTools`
abbrev pub slot_tools : List ToolName
slot_tools =
    ToolName.search_parking_slots ∷ ToolName.get_parking_slot ∷ ToolName.update_slot_status
    ∷ ToolName.bulk_update_slot_status ∷ []

-- `buildReservationTools`
abbrev pub reservation_tools : List ToolName
reservation_tools =
    ToolName.list_my_reservations ∷ ToolName.get_reservation ∷ ToolName.list_lot_reservations
    ∷ ToolName.book_parking_slot ∷ ToolName.cancel_reservation ∷ []

-- `buildCheckpointTools`
abbrev pub checkpoint_tools : List ToolName
checkpoint_tools = ToolName.check_in_via_qr ∷ ToolName.check_out_via_qr ∷ []

-- `buildUsersTools`
abbrev pub user_tools : List ToolName
user_tools =
    ToolName.get_my_profile ∷ ToolName.get_my_payment_method ∷ ToolName.list_all_users
    ∷ ToolName.get_user ∷ ToolName.update_my_profile ∷ ToolName.block_user ∷ ToolName.unblock_user
    ∷ ToolName.update_user ∷ ToolName.remove_manager ∷ []

-- `buildNotificationTools`
abbrev pub notification_tools : List ToolName
notification_tools = ToolName.list_my_notifications ∷ ToolName.mark_notifications_read ∷ []

-- `buildPolicyTools`
abbrev pub policy_tools : List ToolName
policy_tools = ToolName.search_company_policies ∷ []

-- `buildLocationTools`
abbrev pub location_tools : List ToolName
location_tools = ToolName.get_user_location ∷ []

-- `ToolRegistry.allTools`
abbrev pub all_tools : List ToolName
all_tools =
    lot_tools ++ slot_tools ++ reservation_tools ++ checkpoint_tools ++ user_tools
    ++ notification_tools ++ policy_tools ++ location_tools

-- `!tool.roles || tool.roles.includes(role)`
abbrev pub is_for : Role → Option (List Role) → Bool
is_for role none = true
is_for role (some roles) = has_role roles role

-- `ToolRegistry.forRole`
unfoldable pub for_role : Role → List ToolName
unfolding definition
for_role role = find_many (λ t. is_for role (definition t).roles) all_tools

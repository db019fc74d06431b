-- ===== src/Api/Slots.antt =====
-- backend/src/modules/parking-slot/parking-slot.controller.ts
use smart_parking_management.Prelude.{ℕ, Option, none, List}
use smart_parking_management.Schema.Status.{Role}
use smart_parking_management.Action.{Action}
use smart_parking_management.Environment.{AuthenticatedUser}
use smart_parking_management.ParkingSlots.{
  FindSlotsDto, UpdateSlotStatusDto, BulkUpdateSlotStatusDto, find_one_slot, update_status,
  bulk_update_status, search_slots,
}
use smart_parking_management.Api.{Outside, done, queried, staff_only}

pub data SlotRequest : Type 0 where
  get_slots : FindSlotsDto → SlotRequest
  get_slot : ℕ → SlotRequest
  patch_bulk_status : BulkUpdateSlotStatusDto → SlotRequest
  patch_slot : ℕ → UpdateSlotStatusDto → SlotRequest

abbrev pub slot_roles : SlotRequest → Option (List Role)
slot_roles (SlotRequest.patch_bulk_status _) = staff_only
slot_roles (SlotRequest.patch_slot _ _) = staff_only
slot_roles _ = none

-- The handlers.
abbrev pub slot_handler : Outside → SlotRequest → AuthenticatedUser → Action (Unit {0})
slot_handler o (SlotRequest.get_slots dto) user = queried (search_slots o.env.config dto)
slot_handler o (SlotRequest.get_slot id) user = done (find_one_slot id)
slot_handler o (SlotRequest.patch_bulk_status dto) user = done (bulk_update_status dto user)
slot_handler o (SlotRequest.patch_slot id dto) user = done (update_status id dto user)

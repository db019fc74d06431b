-- ===== src/ParkingSlots.antt =====
-- backend/src/modules/parking-slot/parking-slot.service.ts: the search for slots, and the staff's
-- restriction of one slot or of a selection.
pub mod Search
pub mod Restriction
use smart_parking_management.Prelude.{
  ℕ, ◌+◌, Bool, true, false, not, ◌&&◌, ◌||◌, Option, none, some, List, [], ◌∷◌, map, length,
  find_many, update_many, any, ltb, ◌==◌, if◌then◌else◌,
}
use smart_parking_management.Schema.{Db, Text, ParkingLot, ParkingSlot, Reservation}
use smart_parking_management.Schema.Status.{
  SlotStatus, is_open, is_available, is_reserved, is_occupied, is_maintenance, is_manager,
}
use smart_parking_management.Action.{
  Action, Error, pure, gets, or_throw, throw_if, modify, ◌>>=◌, ◌>>◌,
}
use smart_parking_management.Environment.{Config, AuthenticatedUser, minutes_ms, buffer_ms}
use smart_parking_management.Tables.{find_slot, find_lot}

-- A field that is left out is `none`; Prisma reads an undefined condition as no condition.
pub record FindSlotsDto : Type 0 where
  pub lot_id : ℕ
  pub floor_id : Option ℕ
  pub status : Option SlotStatus
  pub arrival_time : Option ℕ
  pub duration_minutes : Option ℕ

pub record SearchResult : Type 0 where
  pub slot : ParkingSlot
  pub available_for_window : Option Bool

abbrev pub matches_id : Option ℕ → ℕ → Bool
matches_id none id = true
matches_id (some wanted) id = id == wanted

abbrev pub same_slot_status : SlotStatus → SlotStatus → Bool
same_slot_status SlotStatus.available s = is_available s
same_slot_status SlotStatus.reserved s = is_reserved s
same_slot_status SlotStatus.occupied s = is_occupied s
same_slot_status SlotStatus.maintenance s = is_maintenance s

abbrev pub matches_status : Option SlotStatus → SlotStatus → Bool
matches_status none s = true
matches_status (some wanted) s = same_slot_status wanted s

-- `where: { lotId, floorId, status }`
abbrev pub matches_slot : FindSlotsDto → Option SlotStatus → ParkingSlot → Bool
matches_slot dto status slot =
    slot.lot_id == dto.lot_id
    && matches_id dto.floor_id slot.floor_id
    && matches_status status slot.status

-- `id: { in: ids }`
abbrev pub is_in : List ℕ → ℕ → Bool
is_in ids id = any (λ x. x == id) ids

-- The `where` of the search for the reservations that block a window; the buffer stands on the
-- other side, since subtraction on ℕ stops at 0.
abbrev pub blocks : List ℕ → ℕ → ℕ → ℕ → Reservation → Bool
blocks slot_ids arrival block_end buffer r =
    is_in slot_ids r.slot_id
    && is_open r.status
    && ltb r.start_time block_end
    && ltb arrival (r.end_time + buffer)

abbrev pub slot_ids : List ParkingSlot → List ℕ
slot_ids slots = map (λ slot. slot.id) slots

-- The part of `search` that has a window: every slot with whether it is free in it.
abbrev pub annotate : List ℕ → ParkingSlot → SearchResult
annotate blocked slot = record {
  slot = slot;
  available_for_window = some (not (is_maintenance slot.status) && not (is_in blocked slot.id));
}

unfoldable pub search_window : Config → FindSlotsDto → ℕ → ℕ → Db → List SearchResult
search_window config dto arrival duration db =
    let slots = find_many (matches_slot dto dto.status) db.slots in
    let buffer = buffer_ms config in
    let block_end = arrival + minutes_ms duration + buffer in
    let overlapping =
      find_many (blocks (slot_ids slots) arrival block_end buffer) db.reservations in
    map (annotate (map (λ r. r.slot_id) overlapping)) slots

abbrev pub plain : ParkingSlot → SearchResult
plain slot = record { slot = slot; available_for_window = none }

-- `dto.status ?? SlotStatus.AVAILABLE`
abbrev pub or_available : Option SlotStatus → SlotStatus
or_available none = SlotStatus.available
or_available (some status) = status

search_plain : FindSlotsDto → Db → List SearchResult
search_plain dto db =
    map plain (find_many (matches_slot dto (some (or_available dto.status))) db.slots)

search_by : Config → FindSlotsDto → Option ℕ → Option ℕ → Db → List SearchResult
unfolding search_window search_plain
search_by config dto (some arrival) (some duration) = search_window config dto arrival duration
search_by config dto (some arrival) none = search_plain dto
search_by config dto none _ = search_plain dto

-- `ParkingSlotService.search`, less the order by slot number: a window wants both its fields.
unfoldable pub search_slots : Config → FindSlotsDto → Db → List SearchResult
unfolding search_by
search_slots config dto = search_by config dto dto.arrival_time dto.duration_minutes

-- `ParkingSlotService.findOne`
unfoldable pub find_one_slot : ℕ → Action ParkingSlot
find_one_slot id = do or_throw (← gets (find_slot id)) Error.slot_not_found

-- The two statuses that the staff may give a slot.
pub data StaffStatus : Type 0 where
  lifted restricted : StaffStatus

pub record UpdateSlotStatusDto : Type 0 where
  pub status : StaffStatus
  pub reason : Option Text

abbrev pub new_status : StaffStatus → SlotStatus
new_status lifted = SlotStatus.available
new_status restricted = SlotStatus.maintenance

-- `dto.status === 'MAINTENANCE' ? (dto.reason ?? null) : null`
abbrev pub new_reason : StaffStatus → Option Text → Option Text
new_reason lifted reason = none
new_reason restricted reason = reason

abbrev pub restrict : UpdateSlotStatusDto → ParkingSlot → ParkingSlot
restrict dto slot = record slot {
  status = new_status dto.status;
  restricted_reason = new_reason dto.status dto.reason;
}

abbrev pub is_in_use : SlotStatus → Bool
is_in_use status = is_reserved status || is_occupied status

-- `slot.lot.managerId`
abbrev pub manages : AuthenticatedUser → Option ParkingLot → Bool
manages requester none = false
manages requester (some lot) = lot.manager_id == requester.user_id

-- `ParkingSlotService.updateStatus`
unfoldable pub update_status : ℕ → UpdateSlotStatusDto → AuthenticatedUser → Action ParkingSlot
update_status id dto requester = do
  slot ← or_throw (← gets (find_slot id)) Error.slot_not_found
  lot ← gets (find_lot slot.lot_id)
  throw_if (is_manager requester.role && not (manages requester lot)) Error.not_lot_manager
  throw_if (is_in_use slot.status) Error.slot_in_use
  modify (λ db. record db { slots = update_many (λ s. s.id == id) (restrict dto) db.slots })
  pure (restrict dto slot)

pub record BulkUpdateSlotStatusDto : Type 0 where
  pub slot_ids : List ℕ
  pub update : UpdateSlotStatusDto

-- The slots of a selection, which `findMany` and `updateMany` name by the same condition.
abbrev pub is_selected : BulkUpdateSlotStatusDto → ParkingSlot → Bool
is_selected dto slot = is_in dto.slot_ids slot.id

abbrev pub selected : BulkUpdateSlotStatusDto → Db → List ParkingSlot
selected dto db = find_many (is_selected dto) db.slots

-- `ParkingSlotService.bulkUpdateStatus`, which returns the number of slots that it has updated.
unfoldable pub bulk_update_status : BulkUpdateSlotStatusDto → AuthenticatedUser → Action ℕ
bulk_update_status dto requester = do
  slots ← gets (selected dto)
  throw_if (not (length slots == length dto.slot_ids)) Error.slot_not_found
  unowned ← gets (λ db. any (λ s. not (manages requester (find_lot s.lot_id db))) slots)
  throw_if (is_manager requester.role && unowned) Error.not_lot_manager
  throw_if (any (λ s. is_in_use s.status) slots) Error.slot_in_use
  modify (λ db. record db { slots = update_many (is_selected dto) (restrict dto.update) db.slots })
  pure (length slots)

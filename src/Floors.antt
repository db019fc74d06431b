-- ===== src/Floors.antt =====
-- The floors of backend/src/modules/parking-lot/parking-lot.service.ts: a floor is created with its
-- grid of slots, and resized by removing and adding the slots that differ. Where the database's own
-- constraints refuse a write, and the code turns that into an exception, the constraint is a guard:
-- the unique key (lotId, floorNumber), and the reservations that keep their slot from deletion.
pub mod SlotNumbers
pub mod Resizing
use smart_parking_management.Prelude.{
  ℕ, ◌*◌, Bool, true, false, not, ◌&&◌, ◌||◌, Option, none, some, List, [], ◌∷◌, ◌++◌, map,
  find_first, find_many, update_many, any, length, ltb, ◌==◌, if◌then◌else◌,
}
use smart_parking_management.Schema.{Db, Text, ParkingFloor, ParkingLot, ParkingSlot}
use smart_parking_management.Schema.Status.{
  SlotType, SlotStatus, AuditAction, is_manager, is_available,
}
use smart_parking_management.Action.{
  Action, Error, pure, gets, or_throw, throw_if, modify, transaction, ◌>>=◌, ◌>>◌,
}
use smart_parking_management.Environment.{AuthenticatedUser}
use smart_parking_management.Services.{log}
use smart_parking_management.Tables.{find_lot, same_text}
use smart_parking_management.ParkingSlots.{is_in}
use smart_parking_management.Grid.{build_slot_grid_numbers}

abbrev pub max_total_slots : ℕ
max_total_slots = 5000

-- `assertManagerOwnsLot`
abbrev pub assert_manager_owns_lot : ℕ → AuthenticatedUser → Action ParkingLot
assert_manager_owns_lot id requester = do
  lot ← or_throw (← gets (find_lot id)) Error.lot_not_found
  throw_if (is_manager requester.role && not (lot.manager_id == requester.user_id))
      Error.not_lot_manager
  pure lot

-- `assertFloorBelongsToLot`
abbrev pub assert_floor_belongs_to_lot : ℕ → ℕ → Action ParkingFloor
assert_floor_belongs_to_lot lot_id floor_id = do
  floor ←
      or_throw (← gets (λ db. find_first (λ f. f.id == floor_id) db.floors)) Error.floor_not_found
  throw_if (not (floor.lot_id == lot_id)) Error.floor_not_found
  pure floor

-- A row of `createMany`; `new_id` is what `@default(uuid())` gives to the row with a number.
abbrev pub new_slot : (Text → ℕ) → ℕ → ℕ → ℕ → Text → ParkingSlot
new_slot new_id lot_id floor_id price number = record {
  id = new_id number;
  lot_id = lot_id;
  floor_id = floor_id;
  slot_number = number;
  slot_type = SlotType.standard;
  status = SlotStatus.available;
  restricted_reason = none;
  base_price = price;
}

pub record CreateFloorInputDto : Type 0 where
  pub name : Text
  pub floor_number : ℕ
  pub rows : ℕ
  pub columns : ℕ
  pub default_slot_price : ℕ

abbrev pub created_floor : ℕ → ℕ → CreateFloorInputDto → ParkingFloor
created_floor floor_id lot_id dto = record {
  id = floor_id;
  lot_id = lot_id;
  name = dto.name;
  floor_number = dto.floor_number;
  rows = dto.rows;
  columns = dto.columns;
}

-- `ParkingLotService.createFloor`, with the id of the new floor.
unfoldable pub create_floor :
    (Text → ℕ) → ℕ → ℕ → CreateFloorInputDto → AuthenticatedUser → Action ParkingFloor
create_floor new_id floor_id lot_id dto requester = do
  assert_manager_owns_lot lot_id requester
  throw_if (ltb max_total_slots (dto.rows * dto.columns)) Error.too_many_slots
  transaction do
    taken ←
        gets (λ db. any (λ f. f.lot_id == lot_id && f.floor_number == dto.floor_number) db.floors)
    throw_if taken Error.floor_number_taken
    let floor = created_floor floor_id lot_id dto
    modify (λ db. record db { floors = floor ∷ db.floors })
    modify (λ db. record db {
      slots =
          map (new_slot new_id lot_id floor_id dto.default_slot_price)
            (build_slot_grid_numbers dto.rows dto.columns)
          ++ db.slots;
    })
    log floor_id AuditAction.parking_floor_created (some requester.user_id)
    pure floor

pub record UpdateParkingFloorDto : Type 0 where
  pub name : Option Text
  pub floor_number : Option ℕ
  pub rows : Option ℕ
  pub columns : Option ℕ
  pub default_slot_price : Option ℕ

-- `a ?? b`
abbrev pub or_else : {A : Type 0} → Option A → A → A
or_else none b = b
or_else (some a) b = a

abbrev pub updated_floor : UpdateParkingFloorDto → ParkingFloor → ParkingFloor
updated_floor dto f = record f {
  name = or_else dto.name f.name;
  floor_number = or_else dto.floor_number f.floor_number;
  rows = or_else dto.rows f.rows;
  columns = or_else dto.columns f.columns;
}

abbrev pub is_resizing : UpdateParkingFloorDto → ParkingFloor → Bool
is_resizing dto f =
    not (or_else dto.rows f.rows == f.rows) || not (or_else dto.columns f.columns == f.columns)

-- Another floor of the lot that has the number already.
abbrev pub is_number_taken : ParkingFloor → Db → Bool
is_number_taken new db =
    any (λ f. f.lot_id == new.lot_id && f.floor_number == new.floor_number && not (f.id == new.id))
      db.floors

abbrev pub reprice : ℕ → Option ℕ → Db → Db
reprice floor_id none db = db
reprice floor_id (some price) db = record db {
  slots = update_many (λ s. s.floor_id == floor_id) (λ s. record s { base_price = price }) db.slots;
}

-- `targetNumbers.has(number)`
abbrev pub has_text : List Text → Text → Bool
has_text numbers number = any (λ t. same_text t number) numbers

abbrev pub slots_of : ℕ → List ParkingSlot → List ParkingSlot
slots_of floor_id slots = find_many (λ s. s.floor_id == floor_id) slots

abbrev pub to_remove : List Text → List ParkingSlot → List ParkingSlot
to_remove target existing = find_many (λ s. not (has_text target s.slot_number)) existing

abbrev pub to_add : List Text → List ParkingSlot → List Text
to_add target existing =
    find_many (λ number. not (has_text (map (λ s. s.slot_number) existing) number)) target

abbrev pub is_none : Option ℕ → Bool
is_none none = true
is_none (some _) = false

-- `deleteMany({ where: { id: { in: ids } } })`
abbrev pub delete_slots : List ℕ → List ParkingSlot → List ParkingSlot
delete_slots ids slots = find_many (λ s. not (is_in ids s.id)) slots

-- The part of the transaction for a floor whose rows or columns change.
pub resize : (Text → ℕ) → ParkingFloor → List Text → Option ℕ → Action (Unit {0})
resize new_id floor target price = do
  existing ← gets (λ db. slots_of floor.id db.slots)
  let removed_ids = map (λ s. s.id) (to_remove target existing)
  let added = to_add target existing
  throw_if (ltb 0 (length added) && is_none price) Error.price_required
  reserved ← gets (λ db. any (λ r. is_in removed_ids r.slot_id) db.reservations)
  throw_if reserved Error.floor_in_use
  modify (λ db. record db { slots = delete_slots removed_ids db.slots })
  modify (λ db. record db {
    slots = map (new_slot new_id floor.lot_id floor.id (or_else price 0)) added ++ db.slots;
  })

-- The transaction of `updateFloor`.
pub update_floor_writes :
    (Text → ℕ) → ParkingFloor → UpdateParkingFloorDto → AuthenticatedUser → Action ParkingFloor
unfolding resize
update_floor_writes new_id floor dto requester = do
  let updated = updated_floor dto floor
  throw_if (← gets (is_number_taken updated)) Error.floor_number_taken
  modify (λ db. record db {
    floors = update_many (λ f. f.id == floor.id) (updated_floor dto) db.floors;
  })
  modify (reprice floor.id dto.default_slot_price)
  if is_resizing dto floor
      then resize new_id floor (build_slot_grid_numbers updated.rows updated.columns)
          dto.default_slot_price
      else pure tt
  log floor.id AuditAction.parking_floor_updated (some requester.user_id)
  pure updated

-- `ParkingLotService.updateFloor`. The count of the free slots in the response is left out.
unfoldable pub update_floor :
    (Text → ℕ) → ℕ → ℕ → UpdateParkingFloorDto → AuthenticatedUser → Action ParkingFloor
unfolding update_floor_writes
update_floor new_id lot_id floor_id dto requester = do
  assert_manager_owns_lot lot_id requester
  floor ← assert_floor_belongs_to_lot lot_id floor_id
  let updated = updated_floor dto floor
  throw_if (is_resizing dto floor && ltb max_total_slots (updated.rows * updated.columns))
      Error.too_many_slots
  transaction (update_floor_writes new_id floor dto requester)

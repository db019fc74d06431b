-- ===== src/Lots.antt =====
-- The lots of backend/src/modules/parking-lot/parking-lot.service.ts: they are created with their
-- floors and slots, changed and removed. That the database compares names without regard to case, and
-- the distances on the globe that it computes, are parameters; distances are in millimetres.
pub mod Availability
pub mod Maps
pub mod Creation
pub mod Visibility
pub mod Changes
use smart_parking_management.Prelude.{
  ℕ, ◌+◌, ◌*◌, Bool, true, false, not, ◌&&◌, ◌||◌, Option, none, some, List, [], ◌∷◌, ◌++◌, map,
  find_first, find_many, update_many, any, ltb, leb, ◌==◌, if◌then◌else◌,
}
use smart_parking_management.Schema.{Db, Text, ParkingFloor, ParkingLot, ParkingSlot}
use smart_parking_management.Schema.Status.{AuditAction, is_manager}
use smart_parking_management.Action.{
  Action, Error, pure, gets, or_throw, throw_if, modify, transaction, for_each, on_foreign_key,
  ◌>>=◌, ◌>>◌,
}
use smart_parking_management.Environment.{AuthenticatedUser}
use smart_parking_management.Services.{log}
use smart_parking_management.Tables.{find_lot}
use smart_parking_management.ParkingSlots.{is_in}
use smart_parking_management.Grid.{build_slot_grid_numbers}
use smart_parking_management.Floors.{
  CreateFloorInputDto, created_floor, new_slot, max_total_slots, or_else, assert_manager_owns_lot,
  assert_floor_belongs_to_lot,
}

pub record CreateParkingLotDto : Type 0 where
  pub name : Text
  pub address : Text
  pub latitude : ℕ
  pub longitude : ℕ
  pub manager_id : Option ℕ
  pub floors : List CreateFloorInputDto

-- The loop of `assertUniqueFloorNumbers`: whether no number comes again.
unfoldable pub has_unique_numbers : List ℕ → List CreateFloorInputDto → Bool
has_unique_numbers seen [] = true
has_unique_numbers seen (floor ∷ floors) =
    let rest = has_unique_numbers (floor.floor_number ∷ seen) floors in
    if is_in seen floor.floor_number then false else rest

-- The loop of `assertWithinSlotLimit`: the total, or none at a floor that is too large.
unfoldable pub total_within_limit : List CreateFloorInputDto → ℕ → Option ℕ
total_within_limit [] total = some total
total_within_limit (floor ∷ floors) total =
    let rest = total_within_limit floors (total + floor.rows * floor.columns) in
    if ltb max_total_slots (floor.rows * floor.columns) then none else rest

-- ~50m
abbrev pub duplicate_lot_radius : ℕ
duplicate_lot_radius = 50_000

-- The ids that `@default(uuid())` gives to the rows of a new lot: a floor's by its number, a slot's by
-- its floor and its number.
pub record LotIds : Type 0 where
  pub lot_id : ℕ
  pub floor_id : ℕ → ℕ
  pub slot_id : ℕ → Text → ℕ

abbrev pub created_lot : ℕ → CreateParkingLotDto → ℕ → ParkingLot
created_lot id dto requesting_manager_id = record {
  id = id;
  name = dto.name;
  address = dto.address;
  latitude = dto.latitude;
  longitude = dto.longitude;
  manager_id = or_else dto.manager_id requesting_manager_id;
  is_active = true;
}

-- `buildSlotGrid`
abbrev pub build_slot_grid : (Text → ℕ) → ℕ → ℕ → CreateFloorInputDto → List ParkingSlot
build_slot_grid new_id lot_id floor_id dto =
    map (new_slot new_id lot_id floor_id dto.default_slot_price)
      (build_slot_grid_numbers dto.rows dto.columns)

-- Whether the foreign key of a lot's manager is met.
abbrev pub has_user : ℕ → Db → Bool
has_user id db = any (λ u. u.id == id) db.users

-- The body of the loop over `dto.floors`.
unfoldable pub add_floor : LotIds → CreateFloorInputDto → Action (Unit {0})
add_floor ids floor_input = do
  let floor_id = ids.floor_id floor_input.floor_number
  modify (λ db. record db { floors = created_floor floor_id ids.lot_id floor_input ∷ db.floors })
  modify (λ db. record db {
    slots = build_slot_grid (ids.slot_id floor_id) ids.lot_id floor_id floor_input ++ db.slots;
  })

module _ (same_name : Text → Text → Bool) (distance : ℕ → ℕ → ParkingLot → ℕ) where
  -- `assertNoDuplicateLot`
  abbrev pub assert_no_duplicate_lot : Text → ℕ → ℕ → Action (Unit {0})
  assert_no_duplicate_lot name latitude longitude = do
    name_match ← gets (λ db. any (λ lot. same_name lot.name name) db.lots)
    throw_if name_match Error.lot_name_taken
    nearby ←
        gets (λ db. any (λ lot. leb (distance latitude longitude lot) duplicate_lot_radius) db.lots)
    throw_if nearby Error.lot_nearby

  -- `ParkingLotService.create`; the verification of the address decides only about a line in the log.
  unfoldable pub create_lot : LotIds → CreateParkingLotDto → ℕ → ℕ → Action ParkingLot
  unfolding has_unique_numbers total_within_limit
  create_lot ids dto requesting_manager_id requesting_user_id = do
    throw_if (not (has_unique_numbers [] dto.floors)) Error.duplicate_floor_number
    or_throw (total_within_limit dto.floors 0) Error.too_many_slots
    assert_no_duplicate_lot dto.name dto.latitude dto.longitude
    let lot = created_lot ids.lot_id dto requesting_manager_id
    transaction do
      throw_if (not (← gets (has_user lot.manager_id))) Error.foreign_key_violated
      modify (λ db. record db { lots = lot ∷ db.lots })
      for_each (add_floor ids) dto.floors
      log ids.lot_id AuditAction.parking_lot_created (some requesting_user_id)
      pure lot

pub record UpdateParkingLotDto : Type 0 where
  pub name : Option Text
  pub address : Option Text
  pub latitude : Option ℕ
  pub longitude : Option ℕ
  pub manager_id : Option ℕ
  pub is_active : Option Bool

-- `delete data.managerId` for a manager
abbrev pub update_data : AuthenticatedUser → UpdateParkingLotDto → UpdateParkingLotDto
update_data requester dto =
    if is_manager requester.role then record dto { manager_id = none } else dto

abbrev pub updated_lot : UpdateParkingLotDto → ParkingLot → ParkingLot
updated_lot change lot = record lot {
  name = or_else change.name lot.name;
  address = or_else change.address lot.address;
  latitude = or_else change.latitude lot.latitude;
  longitude = or_else change.longitude lot.longitude;
  manager_id = or_else change.manager_id lot.manager_id;
  is_active = or_else change.is_active lot.is_active;
}

-- Whether the manager of a change, if it has one, is there.
abbrev pub keeps_manager : UpdateParkingLotDto → Db → Bool
keeps_manager change db = elim change.manager_id [ none ↦ true | some id ↦ has_user id db ]

-- `ParkingLotService.update`
unfoldable pub update_lot : ℕ → UpdateParkingLotDto → AuthenticatedUser → Action ParkingLot
update_lot id dto requester = do
  lot ← assert_manager_owns_lot id requester
  let change = update_data requester dto
  throw_if (not (← gets (keeps_manager change))) Error.foreign_key_violated
  modify (λ db. record db { lots = update_many (λ l. l.id == lot.id) (updated_lot change) db.lots })
  pure (updated_lot change lot)

-- The reservations that keep a slot, or their lot, from being deleted.
abbrev pub is_slot_reserved : (ParkingSlot → Bool) → Db → Bool
is_slot_reserved p db =
    any (λ r. is_in (map (λ s. s.id) (find_many p db.slots)) r.slot_id) db.reservations

abbrev pub is_floor_of : ℕ → ParkingFloor → Bool
is_floor_of lot_id floor = floor.lot_id == lot_id

-- A slot of a lot, by its own column or by its floor.
abbrev pub slot_in_lot : ℕ → Db → ParkingSlot → Bool
slot_in_lot lot_id db slot =
    slot.lot_id == lot_id
    || is_in (map (λ f. f.id) (find_many (is_floor_of lot_id) db.floors)) slot.floor_id

abbrev pub slot_on_floor : ℕ → ParkingSlot → Bool
slot_on_floor floor_id slot = slot.floor_id == floor_id

-- What the database deletes along with a lot: its floors and its slots.
abbrev pub without_lot : ℕ → Db → Db
without_lot id db = record db {
  lots = find_many (λ l. not (l.id == id)) db.lots;
  floors = find_many (λ f. not (is_floor_of id f)) db.floors;
  slots = find_many (λ s. not (slot_in_lot id db s)) db.slots;
}

-- `ParkingLotService.remove`
unfoldable pub remove_lot : ℕ → AuthenticatedUser → Action ParkingLot
remove_lot id requester = do
  lot ← assert_manager_owns_lot id requester
  throw_if (← gets (λ db. any (λ r. r.lot_id == id) db.reservations)) Error.foreign_key_violated
  throw_if (← gets (λ db. is_slot_reserved (slot_in_lot id db) db)) Error.foreign_key_violated
  modify (without_lot id)
  pure lot

abbrev pub without_floor : ℕ → Db → Db
without_floor id db = record db {
  floors = find_many (λ f. not (f.id == id)) db.floors;
  slots = find_many (λ s. not (slot_on_floor id s)) db.slots;
}

-- `parkingFloor.delete({ where: { id } })`
abbrev pub delete_floor : ℕ → Action (Unit {0})
delete_floor id = do
  throw_if (← gets (is_slot_reserved (slot_on_floor id))) Error.foreign_key_violated
  modify (without_floor id)

-- `ParkingLotService.removeFloor`
unfoldable pub remove_floor : ℕ → ℕ → AuthenticatedUser → Action (Unit {0})
remove_floor lot_id floor_id requester = do
  assert_manager_owns_lot lot_id requester
  floor ← assert_floor_belongs_to_lot lot_id floor_id
  on_foreign_key Error.floor_in_use do
    delete_floor floor.id
    log floor.id AuditAction.parking_floor_deleted (some requester.user_id)

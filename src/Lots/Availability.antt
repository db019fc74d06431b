-- ===== src/Lots/Availability.antt =====
-- The lists and the details of lots in backend/src/modules/parking-lot/parking-lot.service.ts, with the
-- counts of their slots. A map from the id of a lot is a function, with none for a missing key.
use smart_parking_management.Prelude.{
  min, ℕ, ◌+◌, ◌*◌, Bool, false, not, ◌&&◌, ◌||◌, Option, none, some, List, [], ◌∷◌, map, find_many,
  length, ◌==◌, if◌then◌else◌,
}
use smart_parking_management.Schema.{Db, ParkingFloor, ParkingLot, ParkingSlot}
use smart_parking_management.Schema.Status.{is_customer, is_available}
use smart_parking_management.Action.{Action, Error, pure, gets, or_throw, throw_if, ◌>>=◌, ◌>>◌}
use smart_parking_management.Environment.{AuthenticatedUser}
use smart_parking_management.Tables.{find_lot}
use smart_parking_management.ParkingSlots.{is_in}
use smart_parking_management.Floors.{or_else}

pub record Availability : Type 0 where
  pub available_slots : ℕ
  pub min_hourly_rate : ℕ

-- A row with the totals of its lot.
pub record LotWithAvailability : Type 0 where
  pub lot : ParkingLot
  pub total_slots : ℕ
  pub available_slots : ℕ
  pub min_hourly_rate : Option ℕ

-- The group of some rows: their number and their least price; no rows make no group.
unfoldable pub group : List ParkingSlot → Option Availability
group [] = none
group (slot ∷ slots) = elim (group slots) [
  | none ↦ some (record { available_slots = 1; min_hourly_rate = slot.base_price })
  | some g ↦ some (record {
    available_slots = g.available_slots + 1;
    min_hourly_rate = min slot.base_price g.min_hourly_rate;
  })
]

abbrev pub is_available_of : List ℕ → ℕ → ParkingSlot → Bool
is_available_of lot_ids id slot =
    is_in lot_ids slot.lot_id && is_available slot.status && slot.lot_id == id

-- `getAvailabilityMap`
unfoldable pub get_availability_map : List ℕ → Db → ℕ → Option Availability
unfolding group
get_availability_map lot_ids db id = group (find_many (is_available_of lot_ids id) db.slots)

-- `totals.set(key, value)`
abbrev pub set_key : ℕ → ℕ → (ℕ → Option ℕ) → ℕ → Option ℕ
set_key key value m k = if k == key then some value else m k

-- The loop of `getTotalSlotsMap`.
unfoldable pub add_totals : List ParkingFloor → (ℕ → Option ℕ) → ℕ → Option ℕ
add_totals [] totals = totals
add_totals (floor ∷ floors) totals =
    add_totals floors
      (set_key floor.lot_id (or_else (totals floor.lot_id) 0 + floor.rows * floor.columns) totals)

-- `getTotalSlotsMap`
unfoldable pub get_total_slots_map : List ℕ → Db → ℕ → Option ℕ
unfolding add_totals
get_total_slots_map lot_ids db =
    add_totals (find_many (λ f. is_in lot_ids f.lot_id) db.floors) (λ _. none)

abbrev pub available_or_0 : Option Availability → ℕ
available_or_0 none = 0
available_or_0 (some g) = g.available_slots

abbrev pub rate_or_null : Option Availability → Option ℕ
rate_or_null none = none
rate_or_null (some g) = some g.min_hourly_rate

-- `mergeEnrichment`
abbrev pub merge_enrichment :
    ParkingLot → (ℕ → Option Availability) → (ℕ → Option ℕ) → LotWithAvailability
merge_enrichment lot availability total_slots = record {
  lot = lot;
  total_slots = or_else (total_slots lot.id) 0;
  available_slots = available_or_0 (availability lot.id);
  min_hourly_rate = rate_or_null (availability lot.id);
}

-- `requestingUser?.role === Role.CUSTOMER`
abbrev pub is_by_customer : Option AuthenticatedUser → Bool
is_by_customer none = false
is_by_customer (some user) = is_customer user.role

-- `ParkingLotService.findAll`
unfoldable pub find_all : Option AuthenticatedUser → Db → List LotWithAvailability
find_all requester db =
    let lots = find_many (λ lot. not (is_by_customer requester) || lot.is_active) db.lots in
    let lot_ids = map (λ lot. lot.id) lots in
    let availability = get_availability_map lot_ids db in
    let total_slots = get_total_slots_map lot_ids db in
    map (λ lot. merge_enrichment lot availability total_slots) lots

-- `ParkingLotService.findOne`
unfoldable pub find_one_lot : ℕ → Option AuthenticatedUser → Action LotWithAvailability
find_one_lot id requester = do
  lot ← or_throw (← gets (find_lot id)) Error.lot_not_found
  throw_if (is_by_customer requester && not lot.is_active) Error.lot_not_found
  availability ← gets (get_availability_map (id ∷ []))
  total_slots ← gets (get_total_slots_map (id ∷ []))
  pure (merge_enrichment lot availability total_slots)

-- A floor with its counts.
pub record FloorResponse : Type 0 where
  pub floor : ParkingFloor
  pub total_slots : ℕ
  pub available_slots : ℕ

abbrev pub is_available_on : ℕ → ParkingSlot → Bool
is_available_on floor_id slot = slot.floor_id == floor_id && is_available slot.status

abbrev pub floor_response : Db → ParkingFloor → FloorResponse
floor_response db floor = record {
  floor = floor;
  total_slots = floor.rows * floor.columns;
  available_slots = length (find_many (is_available_on floor.id) db.slots);
}

-- `ParkingLotService.findFloors`, less the order by floor number.
unfoldable pub find_floors : ℕ → Action (List FloorResponse)
find_floors lot_id = do
  or_throw (← gets (find_lot lot_id)) Error.lot_not_found
  floors ← gets (λ db. find_many (λ f. f.lot_id == lot_id) db.floors)
  gets (λ db. map (floor_response db) floors)

-- ===== src/Lots/Creation.antt =====
-- The creation of a lot, against the page of the new lot.
use smart_parking_management.Prelude.{
  ◌⊎◌, inr, ℕ, ◌+◌, ◌*◌, Bool, ◌≡◌, refl, ap, Option, none, some, List, [], ◌∷◌, ◌++◌, map,
  find_many, length, All, ◌≤◌, true, false, ltb, arith, ◌==◌, if◌then◌else◌, ==_refl,
}
use smart_parking_management.Schema.{Db, Text, ParkingFloor, ParkingLot, ParkingSlot}
use smart_parking_management.Action.{ok, Succeeds, for_each}
use smart_parking_management.Environment.{AuthenticatedUser}
use smart_parking_management.Grid.{build_slot_grid_numbers}
use smart_parking_management.Grid.Numbers.{length-grid_from}
use smart_parking_management.ParkingSlots.{is_in}
use smart_parking_management.Floors.{CreateFloorInputDto, new_slot, or_else, max_total_slots}
use smart_parking_management.Lots.{
  CreateParkingLotDto, LotIds, created_lot, add_floor, total_within_limit, create_lot,
}
use smart_parking_management.Lots.Availability.{
  set_key, group, is_available_of, get_availability_map, get_total_slots_map, add_totals,
  available_or_0, rate_or_null, find_one_lot,
}

-- The number of a group is the number of its rows.
pub group-available : (slots : List ParkingSlot) → available_or_0 (group slots) ≡ length slots
unfolding group
group-available [] = refl
group-available (slot ∷ slots) = ground (arith, group-available slots)

-- The slots that the floors of a lot have by their rows and columns.
abbrev pub slots_by_floors : ℕ → List ParkingFloor → ℕ
slots_by_floors id [] = 0
slots_by_floors id (f ∷ fs) =
    if f.lot_id == id then f.rows * f.columns + slots_by_floors id fs else slots_by_floors id fs

abbrev pub slots_asked_for : List CreateFloorInputDto → ℕ
slots_asked_for [] = 0
slots_asked_for (f ∷ fs) = f.rows * f.columns + slots_asked_for fs

add_totals-key :
    (id : ℕ) (floors : List ParkingFloor) (totals : ℕ → Option ℕ)
    → or_else (add_totals (find_many (λ f. is_in (id ∷ []) f.lot_id) floors) totals id) 0
      ≡ or_else (totals id) 0 + slots_by_floors id floors
unfolding add_totals
add_totals-key id [] totals = omega arith
add_totals-key id (f ∷ fs) totals = ground (
  arith,
  add_totals-key id fs totals,
  add_totals-key id fs (set_key f.lot_id (or_else (totals f.lot_id) 0 + f.rows * f.columns) totals),
)

total_within_limit-cases :
    (floors : List CreateFloorInputDto) (total : ℕ)
    → (total_within_limit floors total ≡ none)
      ⊎ (total_within_limit floors total ≡ some (total + slots_asked_for floors))
unfolding total_within_limit
total_within_limit-cases [] total = inr (ap some (omega arith))
total_within_limit-cases (f ∷ fs) total =
    ground (arith, total_within_limit-cases fs (total + f.rows * f.columns))

within_limit :
    (floors : List CreateFloorInputDto) (total : ℕ) {sum : ℕ}
    → total_within_limit floors total ≡ some sum
    → All (λ f. f.rows * f.columns ≤ max_total_slots) floors
unfolding total_within_limit
within_limit [] total h = tt
within_limit (f ∷ fs) total {sum} h =
    let here : ltb max_total_slots (f.rows * f.columns) ≡ false = ground arith in
    (ground arith, within_limit fs (total + f.rows * f.columns) {sum = sum} (rw here at h))

abbrev available_in : ℕ → List ParkingSlot → List ParkingSlot
available_in id = find_many (is_available_of (id ∷ []) id)

module _ (ids : LotIds) where
  available_in-new :
      (new_id : Text → ℕ) (floor_id price : ℕ) (numbers : List Text) (old : List ParkingSlot)
      → length
          (available_in ids.lot_id (map (new_slot new_id ids.lot_id floor_id price) numbers ++ old))
        ≡ length numbers + length (available_in ids.lot_id old)
  available_in-new new_id floor_id price [] old = omega arith
  available_in-new new_id floor_id price (n ∷ ns) old =
      ground (arith, available_in-new new_id floor_id price ns old)

  length-build_slot_grid_numbers :
      (rows columns : ℕ) → length (build_slot_grid_numbers rows columns) ≡ rows * columns
  unfolding build_slot_grid_numbers
  length-build_slot_grid_numbers rows columns = length-grid_from 1 rows columns

  add_floor-counts :
      (f : CreateFloorInputDto) (db : Db)
      → let (r, db') = add_floor ids f db in
        (r ≡ ok tt)
        × (db'.lots ≡ db.lots)
        × (slots_by_floors ids.lot_id db'.floors
            ≡ f.rows * f.columns + slots_by_floors ids.lot_id db.floors)
        × (length (available_in ids.lot_id db'.slots)
            ≡ f.rows * f.columns + length (available_in ids.lot_id db.slots))
  unfolding add_floor
  add_floor-counts f db =
      let floor_id = ids.floor_id f.floor_number in
      let count =
        available_in-new (ids.slot_id floor_id) floor_id f.default_slot_price
          (build_slot_grid_numbers f.rows f.columns) db.slots in
      let size = length-build_slot_grid_numbers f.rows f.columns in
      (refl, refl, ground arith, ground arith)

  add_floors-counts :
      (fs : List CreateFloorInputDto) (db : Db)
      → let (r, db') = for_each (add_floor ids) fs db in
        (r ≡ ok tt)
        × (db'.lots ≡ db.lots)
        × (slots_by_floors ids.lot_id db'.floors
            ≡ slots_asked_for fs + slots_by_floors ids.lot_id db.floors)
        × (length (available_in ids.lot_id db'.slots)
            ≡ slots_asked_for fs + length (available_in ids.lot_id db.slots))
  unfolding for_each
  add_floors-counts [] db = (refl, refl, omega arith, omega arith)
  add_floors-counts (f ∷ fs) db =
      let (r, l, a, b) = add_floor-counts f db in
      let (r', l', a', b') = add_floors-counts fs (add_floor ids f db).1 in
      (ground arith, ground arith, ground arith, ground arith)

module _ (same_name : Text → Text → Bool) (distance : ℕ → ℕ → ParkingLot → ℕ) (ids : LotIds)
    (dto : CreateParkingLotDto) (manager user : ℕ) (db : Db) where
  create_lot-counts :
      let (r, db') = create_lot same_name distance ids dto manager user db in
      Succeeds r
      → ((db'.lots ≡ created_lot ids.lot_id dto manager ∷ db.lots)
          × (total_within_limit dto.floors 0 ≡ some (slots_asked_for dto.floors)))
        × ((slots_by_floors ids.lot_id db'.floors
              ≡ slots_asked_for dto.floors + slots_by_floors ids.lot_id db.floors)
            × (length (available_in ids.lot_id db'.slots)
                ≡ slots_asked_for dto.floors + length (available_in ids.lot_id db.slots)))
  unfolding create_lot
  create_lot-counts h =
      let counts =
        add_floors-counts ids dto.floors
          (record db { lots = created_lot ids.lot_id dto manager ∷ db.lots }) in
      let sum = total_within_limit-cases dto.floors 0 in ground arith

  -- A lot is created only if none of its floors has more slots than the limit. It is then found at once,
  -- by everybody, active, with the name, the place and the address of the request, and with the manager
  -- of the request, or else the one who asks; and both its total and its number of available slots are
  -- the rows times columns of the floors asked for, if no floor and no slot had the lot's new id before.
  pub create_lot-find_one :
      (requester : Option AuthenticatedUser)
      → slots_by_floors ids.lot_id db.floors ≡ 0
      → available_in ids.lot_id db.slots ≡ []
      → let (r, db') = create_lot same_name distance ids dto manager user db in
        Succeeds r
        → All (λ f. f.rows * f.columns ≤ max_total_slots) dto.floors
          × (find_one_lot ids.lot_id requester db' ≡ (
            ok (record {
              lot = record {
                id = ids.lot_id;
                name = dto.name;
                address = dto.address;
                latitude = dto.latitude;
                longitude = dto.longitude;
                manager_id = or_else dto.manager_id manager;
                is_active = true;
              };
              total_slots = slots_asked_for dto.floors;
              available_slots = slots_asked_for dto.floors;
              min_hourly_rate =
                  rate_or_null (get_availability_map (ids.lot_id ∷ []) db' ids.lot_id);
            }),
            db',
          ))
  unfolding find_one_lot get_availability_map get_total_slots_map
  create_lot-find_one requester no_floors no_slots h =
      let ((lots, limit), (total, available)) = create_lot-counts h in
      let db' = (create_lot same_name distance ids dto manager user db).1 in
      let sums = add_totals-key ids.lot_id db'.floors (λ _. none) in
      let groups = group-available (available_in ids.lot_id db'.slots) in
      let same = ==_refl ids.lot_id in (within_limit dto.floors 0 limit, ground arith)

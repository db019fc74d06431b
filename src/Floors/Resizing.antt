-- ===== src/Floors/Resizing.antt =====
-- The slot numbers of a floor after `updateFloor` of parking-lot.service.ts.
use smart_parking_management.Grid.{build_slot_grid_numbers}
use smart_parking_management.Environment.{AuthenticatedUser}
use smart_parking_management.Prelude.{
  ℕ, update_many, find_first, some, none, Bool, true, false, not, ◌&&◌, ◌≡◌, ◌≢◌, ap, ◌∙◌, List, [],
  ◌∷◌, ◌++◌, map, arith, find_many, any, All, ◌==◌, if◌then◌else◌, Option,
}
use smart_parking_management.Schema.{Db, Text, ParkingSlot, ParkingFloor}
use smart_parking_management.Action.{Succeeds}
use smart_parking_management.ParkingSlots.{is_in}
use smart_parking_management.Floors.{
  has_text, UpdateParkingFloorDto, updated_floor, reprice, is_resizing, update_floor, slots_of,
  to_remove, to_add, delete_slots, new_slot, resize, or_else,
}
use smart_parking_management.Floors.SlotNumbers.{
  HasDistinctIds, has_slot, has_slot-kept, has_text-existing, has_text-add, has_slot-new,
  find_many-find_many, delete_slots-find_many,
}

module _ (new_id : Text → ℕ) (floor : ParkingFloor) (target : List Text) (price : Option ℕ)
    (db : Db) where
  abbrev removed_ids : List ℕ
  removed_ids = map (λ s. s.id) (to_remove target (slots_of floor.id db.slots))

  resize_run :
      Succeeds (resize new_id floor target price db).0
      → ((resize new_id floor target price db).1.slots
          ≡ map
              (new_slot new_id floor.lot_id floor.id (or_else price 0))
              (to_add target (slots_of floor.id db.slots))
            ++ delete_slots removed_ids db.slots)
        × (any (λ r. is_in removed_ids r.slot_id) db.reservations ≡ false)
  unfolding resize
  resize_run h = ground arith

  -- A resize that is made leaves the floor with a slot for a number exactly if the number is one of
  -- the new grid, if ids are unique; and it has removed no slot that a reservation is for.
  pub resize-has_slot :
      (number : Text)
      → HasDistinctIds db.slots
      → Succeeds (resize new_id floor target price db).0
      → (has_slot floor.id number (resize new_id floor target price db).1.slots
          ≡ has_text target number)
        × (any (λ r. is_in removed_ids r.slot_id) db.reservations ≡ false)
  resize-has_slot number distinct h =
      let (rows, unreserved) = resize_run h in
      let existing = slots_of floor.id db.slots in
      let p : ParkingSlot → Bool =
        λ s. s.floor_id == floor.id && not (has_text target s.slot_number) in
      let removed : removed_ids ≡ map (λ s. s.id) (find_many p db.slots) =
        ap (map (λ (s : ParkingSlot). s.id)) (find_many-find_many _ _ db.slots) in
      let kept : delete_slots removed_ids db.slots ≡ find_many (λ s. not (p s)) db.slots =
        ap (λ ids. delete_slots ids db.slots) removed
        ∙ delete_slots-find_many p db.slots distinct in
      let new =
        has_slot-new floor.id target number new_id floor.lot_id (or_else price 0)
          (to_add target existing) (delete_slots removed_ids db.slots) in
      let added = has_text-add floor.id target number existing target in
      let had = has_text-existing floor.id target number db.slots in
      let stayed = has_slot-kept floor.id target number db.slots in
      (rw rows (new ∙ rw kept (rw stayed (rw added (rw had (ground arith))))), unreserved)

update-HasDistinctIds :
    (p : ParkingSlot → Bool) (price : ℕ) (xs : List ParkingSlot)
    → HasDistinctIds xs
    → HasDistinctIds (update_many p (λ s. record s { base_price = price }) xs)
update-HasDistinctIds p price [] h = tt
update-HasDistinctIds p price (x ∷ xs) h = (absent x xs h.0, update-HasDistinctIds p price xs h.1)
  where
    absent :
        (y : ParkingSlot) (ys : List ParkingSlot)
        → All (λ b. y.id ≢ b.id) ys
        → All
            (λ b. (if p y then record y { base_price = price } else y).id ≢ b.id)
            (update_many p (λ s. record s { base_price = price }) ys)
    absent y [] e = tt
    absent y (z ∷ zs) e = (ground (arith, e.0), absent y zs e.1)

reprice-HasDistinctIds :
    (floor_id : ℕ) (price : Option ℕ) (db : Db)
    → HasDistinctIds db.slots
    → HasDistinctIds (reprice floor_id price db).slots
reprice-HasDistinctIds floor_id none db h = h
reprice-HasDistinctIds floor_id (some price) db h =
    update-HasDistinctIds (λ s. s.floor_id == floor_id) price db.slots h

module _ (new_id : Text → ℕ) (lot_id floor_id : ℕ) (dto : UpdateParkingFloorDto)
    (requester : AuthenticatedUser) (db : Db) (floor : ParkingFloor) where
  -- The grid that is asked for, and the database when the resize begins.
  abbrev pub new_grid : List Text
  new_grid =
      build_slot_grid_numbers (updated_floor dto floor).rows (updated_floor dto floor).columns

  abbrev before : Db
  before =
      reprice floor.id dto.default_slot_price
        (record db { floors = update_many (λ f. f.id == floor.id) (updated_floor dto) db.floors })

  update_floor_run :
      find_first (λ f. f.id == floor_id) db.floors ≡ some floor
      → is_resizing dto floor ≡ true
      → Succeeds (update_floor new_id lot_id floor_id dto requester db).0
      → ((update_floor new_id lot_id floor_id dto requester db).1.slots
          ≡ (resize new_id floor new_grid dto.default_slot_price before).1.slots)
        × Succeeds (resize new_id floor new_grid dto.default_slot_price before).0
  unfolding update_floor
  update_floor_run e resizing h = ground arith

  -- After a change of a floor's rows or columns that is accepted, the floor has a slot for a number
  -- exactly if the number is one of the new grid, if the ids of slots are unique.
  pub update_floor-has_slot :
      (number : Text)
      → HasDistinctIds db.slots
      → find_first (λ f. f.id == floor_id) db.floors ≡ some floor
      → is_resizing dto floor ≡ true
      → Succeeds (update_floor new_id lot_id floor_id dto requester db).0
      → has_slot floor.id number (update_floor new_id lot_id floor_id dto requester db).1.slots
        ≡ has_text new_grid number
  update_floor-has_slot number distinct e resizing h =
      let (rows, done) = update_floor_run e resizing h in
      let sized =
        resize-has_slot new_id floor new_grid dto.default_slot_price before number
          (reprice-HasDistinctIds floor.id dto.default_slot_price _ distinct) done in
      rw rows sized.0

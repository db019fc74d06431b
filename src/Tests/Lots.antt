-- ===== src/Tests/Lots.antt =====
-- Runs of ParkingLotService: a lot is created, listed, changed, searched for and deleted.
use smart_parking_management.Prelude.{
  ◌≡◌, ◌≤◌, ◌*◌, All, true, refl, false, none, some, [], ◌∷◌, map, arith, length, find_first,
  find_many, ◌==◌, IsOrdered,
}
use smart_parking_management.Action.{ok, for_each}
use smart_parking_management.Tables.{same_text}
use smart_parking_management.Links.{IsLinked}
use smart_parking_management.Floors.{CreateFloorInputDto, max_total_slots}
use smart_parking_management.Lots.{
  CreateParkingLotDto, UpdateParkingLotDto, create_lot, update_lot, add_floor,
}
use smart_parking_management.Lots.Availability.{
  find_one_lot, find_all, get_availability_map, rate_or_null,
}
use smart_parking_management.Lots.Creation.{create_lot-find_one}
use smart_parking_management.Lots.Visibility.{lot_is_shown, to_option}
use smart_parking_management.Lots.Changes.{update_lot_by_manager, lots_of_others, managers}
use smart_parking_management.Lots.Maps.{find_nearby, is_nearer}
use smart_parking_management.Lots.Maps.Nearby.{find_nearby-rows, is_near}
use smart_parking_management.Tests.Data.{
  lot_two, two_lots, opening_db, user_7, manager_user, flat_distance, lot_ids,
}

abbrev two_by_three : CreateFloorInputDto
two_by_three = record {
  name = b'G' ∷ [];
  floor_number = 0;
  rows = 2;
  columns = 3;
  default_slot_price = 300;
}

abbrev new_lot : CreateParkingLotDto
new_lot = record {
  name = b'N' ∷ [];
  address = b'S' ∷ [];
  latitude = 70;
  longitude = 7;
  manager_id = none;
  floors = two_by_three ∷ record two_by_three { floor_number = 1; rows = 1 } ∷ [];
}

create_lot-find_one_example :
    let (r, db') = create_lot same_text flat_distance lot_ids new_lot 9 9 opening_db in
    All (λ f. f.rows * f.columns ≤ max_total_slots) new_lot.floors
    × (find_one_lot 3 (some user_7) db' ≡ (
      ok (record {
        lot = record {
          id = 3;
          name = new_lot.name;
          address = new_lot.address;
          latitude = 70;
          longitude = 7;
          manager_id = 9;
          is_active = true;
        };
        total_slots = 9;
        available_slots = 9;
        min_hourly_rate = rate_or_null (get_availability_map (3 ∷ []) db' 3);
      }),
      db',
    ))
unfolding create_lot for_each add_floor
create_lot-find_one_example =
    create_lot-find_one same_text flat_distance lot_ids new_lot 9 9 opening_db (some user_7) refl
      refl tt

-- A customer does not see the lot that is not active.
lot_is_shown_example :
    (to_option (find_one_lot 2 (some user_7) two_lots).0 ≡ none)
    × (find_first (λ e. e.lot.id == 2) (find_all (some user_7) two_lots) ≡ none)
lot_is_shown_example =
    lot_is_shown (some user_7) lot_two two_lots (((λ e. omega arith), tt), (tt, tt)) refl

abbrev given_away : UpdateParkingLotDto
given_away = record {
  name = some (b'Z' ∷ []);
  address = none;
  latitude = none;
  longitude = none;
  manager_id = some 8;
  is_active = some false;
}

update_lot_by_manager_example :
    let db' = (update_lot 1 given_away manager_user two_lots).1 in
    (managers db'.lots ≡ 7 ∷ 9 ∷ []) × (lots_of_others 9 db'.lots ≡ lot_two ∷ [])
update_lot_by_manager_example =
    update_lot_by_manager 1 given_away manager_user two_lots refl
      (((λ e. omega arith), tt), (tt, tt))

find_nearby-rows_example :
    let found =
      map
        (λ e. e.entry.lot)
        (find_nearby
          (λ _ _. none)
          flat_distance
          (record { latitude = 50; longitude = 7; radius = none })
          two_lots) in
    IsOrdered (is_nearer (flat_distance 50 7)) found
    × (length (find_many (λ l. l.id == 1) found)
        ≡ length (
            find_many
              (λ l. l.id == 1)
              (find_many
                (is_near
                  (λ _ _. none)
                  flat_distance
                  (record { latitude = 50; longitude = 7; radius = none })
                  two_lots)
                two_lots.lots)))
find_nearby-rows_example =
    find_nearby-rows (λ _ _. none) flat_distance
      (record { latitude = 50; longitude = 7; radius = none }) two_lots (λ l. l.id == 1)

opening-IsLinked : IsLinked opening_db
opening-IsLinked = record {
  reservations = tt;
  cards = (refl, (refl, tt));
  lots = (refl, tt);
  documents = tt;
  payments = tt;
  qr_codes = tt;
  challans = tt;
  floors = (refl, tt);
  slots = (refl, (refl, tt));
  slots_on_floors = (refl, (refl, tt));
  booked_lots = tt;
  booked_slots = tt;
}

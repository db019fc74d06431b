-- ===== src/Api/Lots.antt =====
-- backend/src/modules/parking-lot/parking-lot.controller.ts
use smart_parking_management.Prelude.{ℕ, Option, none, some, List}
use smart_parking_management.Schema.Status.{Role}
use smart_parking_management.Action.{Action}
use smart_parking_management.Environment.{AuthenticatedUser}
use smart_parking_management.Floors.{
  CreateFloorInputDto, UpdateParkingFloorDto, create_floor, update_floor,
}
use smart_parking_management.Lots.{
  CreateParkingLotDto, UpdateParkingLotDto, create_lot, update_lot, remove_lot, remove_floor,
}
use smart_parking_management.Lots.Availability.{find_all, find_one_lot, find_floors}
use smart_parking_management.Lots.Maps.{FindNearbyLotsDto, find_nearby}
use smart_parking_management.Api.{Outside, done, queried, staff_only}

pub data LotRequest : Type 0 where
  get_nearby : FindNearbyLotsDto → LotRequest
  get_lots : LotRequest
  get_lot : ℕ → LotRequest
  post_lot : CreateParkingLotDto → LotRequest
  patch_lot : ℕ → UpdateParkingLotDto → LotRequest
  delete_lot : ℕ → LotRequest
  get_floors : ℕ → LotRequest
  post_floor : ℕ → CreateFloorInputDto → LotRequest
  patch_floor : ℕ → ℕ → UpdateParkingFloorDto → LotRequest
  delete_floor : ℕ → ℕ → LotRequest

-- `@Roles`
abbrev pub lot_roles : LotRequest → Option (List Role)
lot_roles (LotRequest.post_lot _) = staff_only
lot_roles (LotRequest.patch_lot _ _) = staff_only
lot_roles (LotRequest.delete_lot _) = staff_only
lot_roles (LotRequest.post_floor _ _) = staff_only
lot_roles (LotRequest.patch_floor _ _ _) = staff_only
lot_roles (LotRequest.delete_floor _ _) = staff_only
lot_roles _ = none

-- The handlers.
abbrev pub lot_handler : Outside → LotRequest → AuthenticatedUser → Action (Unit {0})
lot_handler o (LotRequest.get_nearby dto) user = queried (find_nearby o.post_matrix o.distance dto)
lot_handler o LotRequest.get_lots user = queried (find_all (some user))
lot_handler o (LotRequest.get_lot id) user = done (find_one_lot id (some user))
lot_handler o (LotRequest.post_lot dto) user =
    done (create_lot o.same_name o.distance o.lot_ids dto user.user_id user.user_id)
lot_handler o (LotRequest.patch_lot id dto) user = done (update_lot id dto user)
lot_handler o (LotRequest.delete_lot id) user = done (remove_lot id user)
lot_handler o (LotRequest.get_floors lot_id) user = done (find_floors lot_id)
lot_handler o (LotRequest.post_floor lot_id dto) user =
    done (create_floor o.slot_id o.new_id lot_id dto user)
lot_handler o (LotRequest.patch_floor lot_id floor_id dto) user =
    done (update_floor o.slot_id lot_id floor_id dto user)
lot_handler o (LotRequest.delete_floor lot_id floor_id) user = remove_floor lot_id floor_id user

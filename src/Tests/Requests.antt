-- ===== src/Tests/Requests.antt =====
-- Runs of the requests behind their guards, of the pages and of the grid of slots.
use smart_parking_management.Prelude.{◌≡◌, refl, none, some, All}
use smart_parking_management.Schema.Status.{Role}
use smart_parking_management.Environment.{default_config}
use smart_parking_management.ParkingSlots.{FindSlotsDto, search_window}
use smart_parking_management.Api.Lots.{LotRequest}
use smart_parking_management.Api.Routes.{Request, handle}
use smart_parking_management.Api.Customers.{KeepsLots, customer-KeepsLots}
use smart_parking_management.Pages.{Response, middleware, visible_nav_items, nav_items}
use smart_parking_management.Pages.Reachable.{visible_nav_items-open}
use smart_parking_management.SlotGrid.{Variant, is_interactive, free_for, grid_offers_bookable}
use smart_parking_management.Tests.Data.{outside, payload_7, booked_db}

customer-KeepsLots_example :
    KeepsLots booked_db
      (handle outside (some payload_7) (Request.on_lots (LotRequest.delete_lot 1)) booked_db).1
customer-KeepsLots_example =
    customer-KeepsLots outside payload_7 (Request.on_lots (LotRequest.delete_lot 1)) booked_db refl

visible_nav_items-open_example :
    All
      (λ item.
        middleware item.href (some (record { role = Role.manager; exp = 10 })) 9_000
        ≡ Response.next)
      (visible_nav_items nav_items (some Role.manager))
visible_nav_items-open_example = visible_nav_items-open Role.manager 10 9_000 refl

abbrev all_of_lot : FindSlotsDto
all_of_lot = record {
  lot_id = 1;
  floor_id = none;
  status = none;
  arrival_time = some 1_003_600_000;
  duration_minutes = some 90;
}

grid_offers_bookable_example :
    All
      (λ r.
        is_interactive Variant.book r ≡ free_for default_config 1_003_600_000 90 booked_db r.slot)
      (search_window default_config all_of_lot 1_003_600_000 90 booked_db)
grid_offers_bookable_example =
    grid_offers_bookable default_config 1_003_600_000 90 booked_db all_of_lot

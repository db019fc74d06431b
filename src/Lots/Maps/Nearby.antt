-- ===== src/Lots/Maps/Nearby.antt =====
-- The rows of `findNearby` and their order, with the answers of the maps provider.
use smart_parking_management.Prelude.{
  ℕ, suc, Bool, ◌&&◌, ◌≡◌, refl, ap, ◌∙◌, Option, none, List, [], ◌∷◌, map, find_many, length, leb,
  IsOrdered, order_by-IsOrdered, count-order_by, All, arith,
}
use smart_parking_management.Schema.{Db, ParkingLot}
use smart_parking_management.Floors.{or_else}
use smart_parking_management.Lots.Maps.{
  Coordinates, DrivingEta, empty_eta, MatrixResponse, tail, etas_from, FindNearbyLotsDto,
  default_radius, NearbyParkingLot, is_nearer, with_etas, get_driving_etas, nearby_rows,
  find_nearby, origin_of, destinations_of, nearby_lot,
}

-- Each lot comes with the time and the distance that stand at its place.
length-etas_from :
    (cs : List Coordinates) (ds ts : List (Option ℕ)) → length (etas_from cs ds ts) ≡ length cs
unfolding etas_from
length-etas_from [] ds ts = refl
length-etas_from (c ∷ cs) ds ts = ap suc (length-etas_from cs (tail ds) (tail ts))

rows-with_etas :
    (f : ParkingLot → DrivingEta → NearbyParkingLot) (rows : List ParkingLot)
    (etas : List DrivingEta)
    → ((row : ParkingLot) (eta : DrivingEta) → (f row eta).entry.lot ≡ row)
    → map (λ e. e.entry.lot) (with_etas f rows etas) ≡ rows
unfolding with_etas
rows-with_etas f [] etas h = refl
rows-with_etas f (row ∷ rows) [] h = ground (arith, h row empty_eta, rows-with_etas f rows [] h)
rows-with_etas f (row ∷ rows) (eta ∷ etas) h =
    ground (arith, h row eta, rows-with_etas f rows etas h)

module _ (post_matrix : Coordinates → List Coordinates → Option MatrixResponse)
    (distance : ℕ → ℕ → ParkingLot → ℕ) (dto : FindNearbyLotsDto) (db : Db) where
  abbrev pub is_near : ParkingLot → Bool
  is_near lot =
      lot.is_active
      && leb (distance dto.latitude dto.longitude lot) (or_else dto.radius default_radius)

  -- The answer has the nearest lots first, and it has exactly the active lots within the radius, each as
  -- often as the table has it, whatever the maps provider answers.
  pub find_nearby-rows :
      (q : ParkingLot → Bool)
      → let found = map (λ e. e.entry.lot) (find_nearby post_matrix distance dto db) in
        IsOrdered (is_nearer (distance dto.latitude dto.longitude)) found
        × (length (find_many q found) ≡ length (find_many q (find_many is_near db.lots)))
  unfolding find_nearby nearby_rows
  find_nearby-rows q =
      let before = is_nearer (distance dto.latitude dto.longitude) in
      let rows = nearby_rows post_matrix distance dto db in
      let same =
        rows-with_etas (nearby_lot distance dto db rows) rows
          (get_driving_etas post_matrix (origin_of dto) (destinations_of rows)) (λ _ _. refl) in
      rw same (
        order_by-IsOrdered before (λ a b h. ground arith) (λ a b c h k. ground arith)
            (find_many is_near db.lots),
        count-order_by before q (find_many is_near db.lots),
      )

no_etas : (cs : List Coordinates) → All (λ eta. eta ≡ empty_eta) (etas_from cs [] [])
unfolding etas_from
no_etas [] = tt
no_etas (c ∷ cs) = (refl, no_etas cs)

with_no_etas :
    (f : ParkingLot → DrivingEta → NearbyParkingLot) (rows : List ParkingLot)
    (etas : List DrivingEta)
    → ((row : ParkingLot) (eta : DrivingEta) → (f row eta).eta ≡ eta)
    → All (λ eta. eta ≡ empty_eta) etas
    → All (λ e. e.eta ≡ empty_eta) (with_etas f rows etas)
unfolding with_etas
with_no_etas f [] etas h none_known = tt
with_no_etas f (row ∷ rows) [] h none_known = (h row empty_eta, with_no_etas f rows [] h tt)
with_no_etas f (row ∷ rows) (eta ∷ etas) h none_known =
    (h row eta ∙ none_known.0, with_no_etas f rows etas h none_known.1)

-- If the maps provider fails, the search answers all the same, with no driving distance and no time.
pub find_nearby_offline :
    (distance : ℕ → ℕ → ParkingLot → ℕ) (dto : FindNearbyLotsDto) (db : Db)
    → All (λ e. e.eta ≡ empty_eta) (find_nearby (λ _ _. none) distance dto db)
unfolding find_nearby get_driving_etas
find_nearby_offline distance dto db =
    let rows = nearby_rows (λ _ _. none) distance dto db in
    with_no_etas (nearby_lot distance dto db rows) rows
      (get_driving_etas (λ _ _. none) (origin_of dto) (destinations_of rows)) (λ _ _. refl)
      (all_empty (destinations_of rows))
  where
    all_empty :
        (cs : List Coordinates)
        → All (λ eta. eta ≡ empty_eta) (get_driving_etas (λ _ _. none) (origin_of dto) cs)
    all_empty [] = tt
    all_empty (c ∷ cs) = no_etas (c ∷ cs)

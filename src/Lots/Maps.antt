-- ===== src/Lots/Maps.antt =====
-- The search for lots near a place: `findNearby` of
-- backend/src/modules/parking-lot/parking-lot.service.ts, and the two services it and `create` ask,
-- backend/src/modules/parking-lot/maps.service.ts and location.service.ts. What the maps provider
-- answers, none for a failure, and the distance that the database computes are parameters. Distances on
-- the globe are in millimetres, driving distances in metres, times in seconds, and confidence in
-- hundredths.
pub mod Nearby
use smart_parking_management.Prelude.{
  ℕ, zero, suc, ◌+◌, ◌/◌, ◌*◌, Bool, true, false, not, ◌&&◌, ◌||◌, Option, none, some, List, [],
  ◌∷◌, map, find_many, order_by, ltb, leb, length, if◌then◌else◌,
}
use smart_parking_management.Schema.{Db, Text, ParkingLot}
use smart_parking_management.Floors.{or_else}
use smart_parking_management.Lots.Availability.{
  LotWithAvailability, get_availability_map, get_total_slots_map, merge_enrichment,
}

pub record Coordinates : Type 0 where
  pub latitude : ℕ
  pub longitude : ℕ

pub data MatchType : Type 0 where
  exact interpolated fallback : MatchType

pub record GeocodeFeature : Type 0 where
  pub label : Option Text
  pub confidence : Option ℕ
  pub match_type : Option MatchType

pub data AddressVerification : Type 0 where
  unverified : AddressVerification
  verified : Option Text → AddressVerification

abbrev pub min_confidence : ℕ
min_confidence = 70

-- `REJECTED_MATCH_TYPES.has(matchType)`, where there is one.
abbrev pub is_rejected : Option MatchType → Bool
is_rejected (some MatchType.fallback) = true
is_rejected _ = false

abbrev pub top_match : Option (List GeocodeFeature) → Option GeocodeFeature
top_match (some (feature ∷ _)) = some feature
top_match _ = none

abbrev pub verify_match : Option GeocodeFeature → AddressVerification
verify_match none = AddressVerification.unverified
verify_match (some f) =
    if ltb (or_else f.confidence 0) min_confidence || is_rejected f.match_type
    then AddressVerification.unverified
    else AddressVerification.verified f.label

-- `LocationService.verifyAddress`, with the geocoder's features for an address.
unfoldable pub verify_address : (Text → Option (List GeocodeFeature)) → Text → AddressVerification
verify_address geocode address = verify_match (top_match (geocode address))

-- Hundredths of a kilometre, and minutes.
pub record DrivingEta : Type 0 where
  pub distance_km : Option ℕ
  pub duration_minutes : Option ℕ

abbrev pub empty_eta : DrivingEta
empty_eta = record { distance_km = none; duration_minutes = none }

pub record MatrixResponse : Type 0 where
  pub distances : Option (List (List (Option ℕ)))
  pub durations : Option (List (List (Option ℕ)))

-- `toDrivingEta`
abbrev pub to_driving_eta : Option ℕ → Option ℕ → DrivingEta
to_driving_eta (some metres) (some seconds) = record {
  distance_km = some ((metres + 5) / 10);
  duration_minutes = some ((seconds + 30) / 60);
}
to_driving_eta none _ = empty_eta
to_driving_eta (some _) none = empty_eta

-- `data?.distances?.[0] ?? []`
abbrev pub first_row : Option (List (List (Option ℕ))) → List (Option ℕ)
first_row (some (row ∷ _)) = row
first_row _ = []

abbrev pub distances_of : Option MatrixResponse → List (Option ℕ)
distances_of none = []
distances_of (some r) = first_row r.distances

abbrev pub durations_of : Option MatrixResponse → List (Option ℕ)
durations_of none = []
durations_of (some r) = first_row r.durations

-- The entry at an index, with none for null and for an index out of range.
abbrev pub head : List (Option ℕ) → Option ℕ
head [] = none
head (x ∷ _) = x

abbrev pub tail : List (Option ℕ) → List (Option ℕ)
tail [] = []
tail (_ ∷ xs) = xs

-- `destinations.map((_, index) => this.toDrivingEta(…[index], …[index]))`
pub etas_from : List Coordinates → List (Option ℕ) → List (Option ℕ) → List DrivingEta
etas_from [] ds ts = []
etas_from (_ ∷ cs) ds ts = to_driving_eta (head ds) (head ts) ∷ etas_from cs (tail ds) (tail ts)

pub record FindNearbyLotsDto : Type 0 where
  pub latitude : ℕ
  pub longitude : ℕ
  pub radius : Option ℕ

abbrev pub default_radius : ℕ
default_radius = 10_000_000

pub record NearbyParkingLot : Type 0 where
  pub entry : LotWithAvailability
  pub distance_km : ℕ
  pub eta : DrivingEta

-- Hundredths of a kilometre: `Math.round(distanceKm * 100)`.
abbrev pub to_hundredths : ℕ → ℕ
to_hundredths millimetres = (millimetres + 5_000) / 10_000

-- `ORDER BY "distanceKm" ASC`
abbrev pub is_nearer : (ParkingLot → ℕ) → ParkingLot → ParkingLot → Bool
is_nearer key a b = leb (key a) (key b)

-- `rows.map((row, index) => …etas[index]…)`
pub with_etas :
    (ParkingLot → DrivingEta → NearbyParkingLot)
    → List ParkingLot
    → List DrivingEta
    → List NearbyParkingLot
with_etas f [] etas = []
with_etas f (row ∷ rows) [] = f row empty_eta ∷ with_etas f rows []
with_etas f (row ∷ rows) (eta ∷ etas) = f row eta ∷ with_etas f rows etas

abbrev pub origin_of : FindNearbyLotsDto → Coordinates
origin_of dto = record { latitude = dto.latitude; longitude = dto.longitude }

abbrev pub destinations_of : List ParkingLot → List Coordinates
destinations_of rows =
    map (λ row. record { latitude = row.latitude; longitude = row.longitude }) rows

-- An element of the answer, for a row of all the rows.
abbrev pub nearby_lot :
    (ℕ → ℕ → ParkingLot → ℕ)
    → FindNearbyLotsDto
    → Db
    → List ParkingLot
    → ParkingLot
    → DrivingEta
    → NearbyParkingLot
nearby_lot distance dto db rows row eta =
    let lot_ids = map (λ r. r.id) rows in
    record {
      entry =
          merge_enrichment row (get_availability_map lot_ids db) (get_total_slots_map lot_ids db);
      distance_km = to_hundredths (distance dto.latitude dto.longitude row);
      eta = eta;
    }

module _ (post_matrix : Coordinates → List Coordinates → Option MatrixResponse) where
  -- `MapsService.getDrivingEtas`
  unfoldable pub get_driving_etas : Coordinates → List Coordinates → List DrivingEta
  unfolding etas_from
  get_driving_etas origin [] = []
  get_driving_etas origin (c ∷ cs) =
      let response = post_matrix origin (c ∷ cs) in
      etas_from (c ∷ cs) (distances_of response) (durations_of response)

  module _ (distance : ℕ → ℕ → ParkingLot → ℕ) where
    -- The rows of the query.
    unfoldable pub nearby_rows : FindNearbyLotsDto → Db → List ParkingLot
    unfolding order_by
    nearby_rows dto db =
        let key : ParkingLot → ℕ = distance dto.latitude dto.longitude in
        order_by (is_nearer key) (
          find_many (λ lot. lot.is_active && leb (key lot) (or_else dto.radius default_radius))
            db.lots)

    -- `ParkingLotService.findNearby`
    unfoldable pub find_nearby : FindNearbyLotsDto → Db → List NearbyParkingLot
    unfolding nearby_rows get_driving_etas with_etas
    find_nearby dto db =
        let rows = nearby_rows dto db in
        with_etas (nearby_lot distance dto db rows) rows
          (get_driving_etas (origin_of dto) (destinations_of rows))

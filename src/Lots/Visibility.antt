-- ===== src/Lots/Visibility.antt =====
-- Who sees a lot: the list of lots against the page of one lot.
use smart_parking_management.Prelude.{
  ℕ, ◌+◌, ◌*◌, Bool, true, not, ◌||◌, ◌≡◌, ◌≢◌, refl, ap, Option, none, some, List, [], ◌∷◌, map,
  find_first, find_many, All, Pairwise, arith, ◌==◌, if◌then◌else◌, ==_refl, ==_sound, Option-cases,
  inl, inr, ◌⊎◌, ◌∙◌, sym,
}
use smart_parking_management.Schema.{Db, ParkingFloor, ParkingLot}
use smart_parking_management.Schema.Status.{Role}
use smart_parking_management.Action.{Result, ok, err}
use smart_parking_management.Environment.{AuthenticatedUser}
use smart_parking_management.ParkingSlots.{is_in}
use smart_parking_management.Floors.{or_else}
use smart_parking_management.Lots.Availability.{
  LotWithAvailability, group, is_available_of, get_availability_map, get_total_slots_map,
  add_totals, set_key, is_by_customer, merge_enrichment, find_all, find_one_lot,
}

abbrev pub to_option : {A : Type 0} → Result A → Option A
to_option (ok a) = some a
to_option (err _) = none

abbrev pub HasDistinctLots : Db → Type 0
HasDistinctLots db = Pairwise (λ a b. a.id ≢ b.id) db.lots

-- The maps give the same for a lot of the list, whichever other lots are asked for with it.
get_availability_map-wider :
    (ids : List ℕ) (id : ℕ) (db : Db)
    → is_in ids id ≡ true
    → get_availability_map ids db id ≡ get_availability_map (id ∷ []) db id
unfolding get_availability_map
get_availability_map-wider ids id db h = ap group (same db.slots)
  where
    same :
        (slots : _)
        → find_many (is_available_of ids id) slots ≡ find_many (is_available_of (id ∷ []) id) slots
    same [] = refl
    same (s ∷ ss) = ground (arith, same ss, ==_sound s.lot_id id)

add_totals-wider :
    (ids : List ℕ) (id : ℕ) (floors : List ParkingFloor) (m n : ℕ → Option ℕ)
    → is_in ids id ≡ true
    → m id ≡ n id
    → add_totals (find_many (λ f. is_in ids f.lot_id) floors) m id
      ≡ add_totals (find_many (λ f. is_in (id ∷ []) f.lot_id) floors) n id
unfolding add_totals
add_totals-wider ids id [] m n h e = e
add_totals-wider ids id (f ∷ fs) m n h e =
    let add : (ℕ → Option ℕ) → ℕ → Option ℕ =
      λ t. set_key f.lot_id (or_else (t f.lot_id) 0 + f.rows * f.columns) t in
    ground (
      arith,
      add_totals-wider ids id fs (add m) (add n),
      add_totals-wider ids id fs (add m) n,
      add_totals-wider ids id fs m n,
      ==_sound f.lot_id id,
    )

-- An entry of the list is the entry of the lot's own page.
merge_enrichment-wider :
    (ids : List ℕ) (lot : ParkingLot) (db : Db)
    → is_in ids lot.id ≡ true
    → merge_enrichment lot (get_availability_map ids db) (get_total_slots_map ids db)
      ≡ merge_enrichment lot
          (get_availability_map (lot.id ∷ []) db)
          (get_total_slots_map (lot.id ∷ []) db)
unfolding get_total_slots_map
merge_enrichment-wider ids lot db h =
    let availability = get_availability_map-wider ids lot.id db h in
    let totals = add_totals-wider ids lot.id db.floors (λ _. none) (λ _. none) h refl in
    rw (availability, totals) refl

abbrev is_shown : Option AuthenticatedUser → ParkingLot → Bool
is_shown requester lot = not (is_by_customer requester) || lot.is_active

abbrev ids_shown : Option AuthenticatedUser → List ParkingLot → List ℕ
ids_shown requester lots = map (λ lot. lot.id) (find_many (is_shown requester) lots)

abbrev pub entry : List ℕ → Db → ParkingLot → LotWithAvailability
entry ids db lot = merge_enrichment lot (get_availability_map ids db) (get_total_slots_map ids db)

-- The first lot with an id, if it is shown.
abbrev shown_lot : Option AuthenticatedUser → Option ParkingLot → Option ParkingLot
shown_lot requester none = none
shown_lot requester (some lot) = if is_shown requester lot then some lot else none

none_with_id :
    (requester : Option AuthenticatedUser) (id : ℕ) (lots : List ParkingLot)
    → All (λ b. id ≢ b.id) lots
    → find_first (λ lot. lot.id == id) (find_many (is_shown requester) lots) ≡ none
none_with_id requester id [] h = refl
none_with_id requester id (l ∷ ls) h = ground (arith, none_with_id requester id ls h.1, h.0)

find_first-shown :
    (requester : Option AuthenticatedUser) (id : ℕ) (lots : List ParkingLot)
    → Pairwise (λ a b. a.id ≢ b.id) lots
    → find_first (λ lot. lot.id == id) (find_many (is_shown requester) lots)
      ≡ shown_lot requester (find_first (λ lot. lot.id == id) lots)
find_first-shown requester id [] d = refl
find_first-shown requester id (l ∷ ls) d =
    let here = ==_sound l.id id in
    let gone = none_with_id requester l.id ls d.0 in
    ground (arith, find_first-shown requester id ls d.1)

-- The entry of the first lot with an id, if it is shown.
abbrev mapped : (ParkingLot → LotWithAvailability) → Option ParkingLot → Option LotWithAvailability
mapped f none = none
mapped f (some lot) = some (f lot)

find_first-entries :
    (f : ParkingLot → LotWithAvailability) (id : ℕ) (lots : List ParkingLot)
    → ((lot : ParkingLot) → (f lot).lot ≡ lot)
    → find_first (λ e. e.lot.id == id) (map f lots)
      ≡ mapped f (find_first (λ lot. lot.id == id) lots)
find_first-entries f id [] h = refl
find_first-entries f id (l ∷ ls) h = ground (arith, find_first-entries f id ls h, h l)

is_in-ids :
    (id : ℕ) (lots : List ParkingLot) {lot : ParkingLot}
    → find_first (λ l. l.id == id) lots ≡ some lot
    → (is_in (map (λ l. l.id) lots) lot.id ≡ true) × (lot.id ≡ id)
is_in-ids id [] h = cc
is_in-ids id (l ∷ ls) {lot} h =
    let here = ==_sound l.id id in
    let self = ==_refl lot.id in ground (arith, is_in-ids id ls {lot = lot})

module _ (requester : Option AuthenticatedUser) (id : ℕ) (db : Db) where
  find_one_lot_run :
      to_option (find_one_lot id requester db).0
      ≡ mapped (entry (id ∷ []) db) (shown_lot requester (find_first (λ l. l.id == id) db.lots))
  unfolding find_one_lot
  find_one_lot_run = ground arith

  entries-narrower :
      (lots : List ParkingLot)
      → mapped (entry (map (λ l. l.id) lots) db) (find_first (λ l. l.id == id) lots)
        ≡ mapped (entry (id ∷ []) db) (find_first (λ l. l.id == id) lots)
  entries-narrower lots = go (Option-cases (find_first (λ l. l.id == id) lots))
    where
      go :
          (find_first (λ l. l.id == id) lots ≡ none)
            ⊎ ((lot : ParkingLot) × (find_first (λ l. l.id == id) lots ≡ some lot))
          → mapped (entry (map (λ l. l.id) lots) db) (find_first (λ l. l.id == id) lots)
            ≡ mapped (entry (id ∷ []) db) (find_first (λ l. l.id == id) lots)
      go (inl missing) = rw missing refl
      go (inr (lot, found)) =
          let (is_id, same) = is_in-ids id lots found in
          rw found
            (ap some (merge_enrichment-wider (map (λ l. l.id) lots) lot db is_id ∙ rw same refl))

  -- The list of lots and the page of one lot agree, if lots have distinct ids: the list has a lot
  -- exactly if the same caller is answered for the lot's id, with the same counts and the same least
  -- price.
  pub find_all-find_one :
      HasDistinctLots db
      → find_first (λ e. e.lot.id == id) (find_all requester db)
        ≡ to_option (find_one_lot id requester db).0
  unfolding find_all
  find_all-find_one d =
      let lots = find_many (is_shown requester) db.lots in
      find_first-entries (entry (map (λ l. l.id) lots) db) id lots (λ _. refl)
      ∙ entries-narrower lots
      ∙ ap (mapped (entry (id ∷ []) db)) (find_first-shown requester id db.lots d)
      ∙ sym find_one_lot_run

-- Who may see a lot: everybody one that is active, and all but customers one that is not.
abbrev may_see_as : Role → ParkingLot → Bool
may_see_as Role.customer lot = lot.is_active
may_see_as Role.manager lot = true
may_see_as Role.admin lot = true

abbrev pub may_see : Option AuthenticatedUser → ParkingLot → Bool
may_see none lot = true
may_see (some user) lot = may_see_as user.role lot

module _ (requester : Option AuthenticatedUser) (lot : ParkingLot) (db : Db) where
  find_one_lot-may_see :
      find_first (λ l. l.id == lot.id) db.lots ≡ some lot
      → to_option (find_one_lot lot.id requester db).0
        ≡ (if may_see requester lot then some (entry (lot.id ∷ []) db lot) else none)
  unfolding find_one_lot
  find_one_lot-may_see found = ground arith

  -- A lot of the table is on its own page and in the list, with its row and the same counts and least
  -- price in both, if the caller may see it; else it is in neither. A caller who is a customer may see
  -- a lot exactly if it is active, and any other caller may see every lot. Lots are to have distinct ids.
  pub lot_is_shown :
      HasDistinctLots db
      → find_first (λ l. l.id == lot.id) db.lots ≡ some lot
      → let shown = if may_see requester lot then some (entry (lot.id ∷ []) db lot) else none in
        (to_option (find_one_lot lot.id requester db).0 ≡ shown)
        × (find_first (λ e. e.lot.id == lot.id) (find_all requester db) ≡ shown)
  lot_is_shown d found = (
    find_one_lot-may_see found,
    find_all-find_one requester lot.id db d ∙ find_one_lot-may_see found,
  )

-- ===== src/Lots/Changes.antt =====
-- What the changes of a lot leave: the manager of a lot, when a manager asks for the change, and the
-- foreign keys of backend/prisma/schema.prisma after a deletion.
use smart_parking_management.Prelude.{
  ℕ, Bool, true, false, not, ◌≡◌, ◌⊎◌, inl, inr, refl, none, some, List, [], ◌∷◌, map, find_first,
  find_many, update_many, any, All, arith, ◌==◌, ==_refl, ==_sound, Option-cases, find_first-holds,
  ◌≢◌, Pairwise,
}
use smart_parking_management.Schema.{Db, ParkingLot, ParkingSlot}
use smart_parking_management.Schema.Status.{is_manager}
use smart_parking_management.Environment.{AuthenticatedUser}
use smart_parking_management.Tables.{find_lot}
use smart_parking_management.Links.{
  AllRefer-find_many, AllRefer-delete, AllRefer-along, AllRefer-unreferred, AllRefer-without,
  is_in-deleted, IsLinked, with_logs,
}
use smart_parking_management.Lots.Visibility.{HasDistinctLots}
use smart_parking_management.Lots.{
  UpdateParkingLotDto, updated_lot, update_lot, is_floor_of, slot_in_lot, slot_on_floor,
  is_slot_reserved, without_lot, without_floor, remove_lot, remove_floor,
}

without_lot-IsLinked :
    (id : ℕ) (db : Db)
    → any (λ r. r.lot_id == id) db.reservations ≡ false
    → is_slot_reserved (slot_in_lot id db) db ≡ false
    → IsLinked db
    → IsLinked (without_lot id db)
without_lot-IsLinked id db unbooked unreserved h =
    let keep : ParkingSlot → Bool = λ s. not (slot_in_lot id db s) in
    record {
      reservations = h.reservations;
      cards = h.cards;
      lots = AllRefer-find_many _ _ _ db.lots db.users h.lots;
      documents = h.documents;
      payments = h.payments;
      qr_codes = h.qr_codes;
      challans = h.challans;
      floors = AllRefer-along _ _ id db.floors db.lots h.floors;
      slots =
          AllRefer-without _ _ (λ l. l.id == id) keep db.slots db.lots h.slots
            (λ s kept. is_in-deleted _ s.lot_id id db.lots (ground arith));
      slots_on_floors =
          AllRefer-without _ _ (is_floor_of id) keep db.slots db.floors h.slots_on_floors
            (λ s kept. ground arith);
      booked_lots = AllRefer-delete _ _ id db.reservations db.lots h.booked_lots unbooked;
      booked_slots =
          AllRefer-unreferred _ _ (slot_in_lot id db) db.reservations db.slots h.booked_slots
            unreserved;
    }

without_floor-IsLinked :
    (id : ℕ) (db : Db)
    → is_slot_reserved (slot_on_floor id) db ≡ false
    → IsLinked db
    → IsLinked (without_floor id db)
without_floor-IsLinked id db unreserved h = record {
  reservations = h.reservations;
  cards = h.cards;
  lots = h.lots;
  documents = h.documents;
  payments = h.payments;
  qr_codes = h.qr_codes;
  challans = h.challans;
  floors = AllRefer-find_many _ _ _ db.floors db.lots h.floors;
  slots = AllRefer-find_many _ _ _ db.slots db.lots h.slots;
  slots_on_floors = AllRefer-along _ _ id db.slots db.floors h.slots_on_floors;
  booked_lots = h.booked_lots;
  booked_slots =
      AllRefer-unreferred _ _ (slot_on_floor id) db.reservations db.slots h.booked_slots unreserved;
}

remove_lot-cases :
    (id : ℕ) (requester : AuthenticatedUser) (db : Db)
    → ((remove_lot id requester db).1 ≡ db)
      ⊎ (((any (λ r. r.lot_id == id) db.reservations ≡ false)
            × (is_slot_reserved (slot_in_lot id db) db ≡ false))
          × ((remove_lot id requester db).1 ≡ without_lot id db))
unfolding remove_lot
remove_lot-cases id requester db = ground arith

remove_floor-cases :
    (lot_id id : ℕ) (requester : AuthenticatedUser) (db : Db)
    → let logs = (remove_floor lot_id id requester db).1.audit_logs in
      ((remove_floor lot_id id requester db).1 ≡ db)
      ⊎ ((is_slot_reserved (slot_on_floor id) db ≡ false)
          × ((remove_floor lot_id id requester db).1
              ≡ record (without_floor id db) { audit_logs = logs }))
unfolding remove_floor
remove_floor-cases lot_id id requester db =
    elim (Option-cases (find_first (λ f. f.id == id) db.floors)) [
      | inl missing ↦ ground arith
      | inr (floor, found) ↦
          let same = ==_sound floor.id id (find_first-holds (λ f. f.id == id) db.floors found) in
          ground (arith, same)
    ]

-- The deletion of a lot, with its floors and slots, done or refused, leaves every row that refers to
-- another one referring to one that is there, if that was so before.
pub remove_lot-IsLinked :
    (id : ℕ) (requester : AuthenticatedUser) (db : Db)
    → IsLinked db
    → IsLinked (remove_lot id requester db).1
remove_lot-IsLinked id requester db h = elim (remove_lot-cases id requester db) [
  | inl same ↦ rw same h
  | inr ((unbooked, unreserved), gone) ↦ rw gone (without_lot-IsLinked id db unbooked unreserved h)
]

-- The deletion of a floor, with its slots, done or refused, leaves every row that refers to another one
-- referring to one that is there, if that was so before.
pub remove_floor-IsLinked :
    (lot_id id : ℕ) (requester : AuthenticatedUser) (db : Db)
    → IsLinked db
    → IsLinked (remove_floor lot_id id requester db).1
remove_floor-IsLinked lot_id id requester db h = elim (remove_floor-cases lot_id id requester db) [
  | inl same ↦ rw same h
  | inr (unreserved, gone) ↦
      rw gone (with_logs (without_floor id db) _ (without_floor-IsLinked id db unreserved h))
]

abbrev pub managers : List ParkingLot → List ℕ
managers = map (λ l. l.manager_id)

abbrev pub lots_of_others : ℕ → List ParkingLot → List ParkingLot
lots_of_others user_id = find_many (λ l. not (l.manager_id == user_id))

keeps_managers :
    (id : ℕ) (dto : UpdateParkingLotDto) (lots : List ParkingLot)
    → managers (update_many (λ l. l.id == id) (updated_lot (record dto { manager_id = none })) lots)
      ≡ managers lots
keeps_managers id dto [] = refl
keeps_managers id dto (l ∷ ls) = ground (arith, keeps_managers id dto ls)

untouched :
    (id : ℕ) (f : ParkingLot → ParkingLot) (lots : List ParkingLot)
    → All (λ b. id ≢ b.id) lots
    → update_many (λ l. l.id == id) f lots ≡ lots
untouched id f [] h = refl
untouched id f (l ∷ ls) h = ground (arith, untouched id f ls h.1, h.0)

keeps_others :
    (user_id id : ℕ) (dto : UpdateParkingLotDto) (lots : List ParkingLot) {lot : ParkingLot}
    → Pairwise (λ a b. a.id ≢ b.id) lots
    → find_first (λ l. l.id == id) lots ≡ some lot
    → (lot.manager_id == user_id) ≡ true
    → lots_of_others user_id
        (update_many (λ l. l.id == lot.id) (updated_lot (record dto { manager_id = none })) lots)
      ≡ lots_of_others user_id lots
keeps_others user_id id dto [] d found mine = refl
keeps_others user_id id dto (l ∷ ls) {lot} d found mine =
    let here = ==_sound l.id id in
    let self = ==_refl l.id in
    let holds = find_first-holds (λ l. l.id == id) ls {x = lot} in
    let rest = untouched l.id (updated_lot (record dto { manager_id = none })) ls d.0 in
    ground (arith, keeps_others user_id id dto ls {lot = lot} d.1, ==_sound lot.id id)

-- Whatever a manager asks for, the update of a lot leaves every lot with the manager that it had, and
-- leaves the lots of other managers as they were, if lots have distinct ids.
pub update_lot_by_manager :
    (id : ℕ) (dto : UpdateParkingLotDto) (requester : AuthenticatedUser) (db : Db)
    → is_manager requester.role ≡ true
    → HasDistinctLots db
    → let db' = (update_lot id dto requester db).1 in
      (managers db'.lots ≡ managers db.lots)
      × (lots_of_others requester.user_id db'.lots ≡ lots_of_others requester.user_id db.lots)
unfolding update_lot
update_lot_by_manager id dto requester db manages d = elim (Option-cases (find_lot id db)) [
  | inl missing ↦ ground arith
  | inr (lot, found) ↦
      let kept = keeps_managers lot.id dto db.lots in
      let others = keeps_others requester.user_id id dto db.lots d found in
      (ground arith, ground arith)
]

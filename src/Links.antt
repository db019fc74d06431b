-- ===== src/Links.antt =====
-- What refers to what by a foreign key of backend/prisma/schema.prisma, and what a deletion does to it.
-- The recipient and the reservation of a notification are no foreign keys.
use smart_parking_management.Prelude.{
  ℕ, Bool, true, false, not, ◌≡◌, refl, List, [], ◌∷◌, find_many, map, any, All, arith, ◌==◌,
  Bool-cases, inl, inr,
}
use smart_parking_management.Schema.{
  Db, User, Reservation, PaymentMethod, ParkingLot, ParkingFloor, ParkingSlot, PolicyDocument,
  Payment, QrCode, Challan, AuditLog,
}
use smart_parking_management.ParkingSlots.{is_in}

-- Every row's key is the id of a row of the other table.
module _ {A B : Type 0} (id_of : B → ℕ) (key : A → ℕ) where
  abbrev pub AllRefer : List A → List B → Type 0
  AllRefer xs bs = All (λ a. any (λ b. id_of b == key a) bs ≡ true) xs

  pub AllRefer-find_many :
      (p : A → Bool) (xs : List A) (bs : List B) → AllRefer xs bs → AllRefer (find_many p xs) bs
  AllRefer-find_many p [] bs h = tt
  AllRefer-find_many p (a ∷ xs) bs h = ground (arith, h.0, AllRefer-find_many p xs bs h.1)

  any-kept :
      (k : ℕ) (gone : B → Bool) (bs : List B)
      → any (λ b. id_of b == k) bs ≡ true
      → any (λ x. x == k) (map id_of (find_many gone bs)) ≡ false
      → any (λ b. id_of b == k) (find_many (λ b. not (gone b)) bs) ≡ true
  any-kept k gone [] h e = h
  any-kept k gone (b ∷ bs) h e = elim (Bool-cases (gone b)) [
    | inl left ↦ ground (arith, any-kept k gone bs)
    | inr stays ↦ ground (arith, any-kept k gone bs)
  ]

  -- Rows that go along with those that they refer to leave the others referring to what is left.
  pub AllRefer-cascade :
      (gone : B → Bool) (xs : List A) (bs : List B)
      → AllRefer xs bs
      → AllRefer
          (find_many (λ a. not (is_in (map id_of (find_many gone bs)) (key a))) xs)
          (find_many (λ b. not (gone b)) bs)
  AllRefer-cascade gone [] bs h = tt
  AllRefer-cascade gone (a ∷ xs) bs h =
      elim (Bool-cases (is_in (map id_of (find_many gone bs)) (key a))) [
        | inl along ↦ rw along (AllRefer-cascade gone xs bs h.1)
        | inr stays ↦ rw stays (any-kept (key a) gone bs h.0 stays, AllRefer-cascade gone xs bs h.1)
      ]

  any-deleted :
      (j k : ℕ) (bs : List B)
      → (j == k) ≡ false
      → any (λ b. id_of b == j) bs ≡ true
      → any (λ b. id_of b == j) (find_many (λ b. not (id_of b == k)) bs) ≡ true
  any-deleted j k [] ne h = h
  any-deleted j k (b ∷ bs) ne h = ground (arith, any-deleted j k bs ne)

  -- Rows none of which refers to the one that is deleted refer to what is left.
  pub AllRefer-delete :
      (k : ℕ) (xs : List A) (bs : List B)
      → AllRefer xs bs
      → any (λ a. key a == k) xs ≡ false
      → AllRefer xs (find_many (λ b. not (id_of b == k)) bs)
  AllRefer-delete k [] bs h e = tt
  AllRefer-delete k (a ∷ xs) bs h e =
      (any-deleted (key a) k bs (ground arith) h.0, AllRefer-delete k xs bs h.1 (ground arith))

  -- Rows that are deleted for the one that they refer to leave the others referring to what is left.
  pub AllRefer-along :
      (k : ℕ) (xs : List A) (bs : List B)
      → AllRefer xs bs
      → AllRefer (find_many (λ a. not (key a == k)) xs) (find_many (λ b. not (id_of b == k)) bs)
  AllRefer-along k [] bs h = tt
  AllRefer-along k (a ∷ xs) bs h = elim (Bool-cases (key a == k)) [
    | inl along ↦ rw along (AllRefer-along k xs bs h.1)
    | inr stays ↦ rw stays (any-deleted (key a) k bs stays h.0, AllRefer-along k xs bs h.1)
  ]

  -- If no row refers to one that is deleted, the rows refer to what is left.
  pub AllRefer-unreferred :
      (gone : B → Bool) (xs : List A) (bs : List B)
      → AllRefer xs bs
      → any (λ a. is_in (map id_of (find_many gone bs)) (key a)) xs ≡ false
      → AllRefer xs (find_many (λ b. not (gone b)) bs)
  AllRefer-unreferred gone [] bs h e = tt
  AllRefer-unreferred gone (a ∷ xs) bs h e = (
    any-kept (key a) gone bs h.0 (ground arith),
    AllRefer-unreferred gone xs bs h.1 (ground arith),
  )

  -- The rows that are kept refer to what is left, if none that is kept refers to one that is deleted.
  pub AllRefer-without :
      (gone : B → Bool) (keep : A → Bool) (xs : List A) (bs : List B)
      → AllRefer xs bs
      → ((a : A) → keep a ≡ true → is_in (map id_of (find_many gone bs)) (key a) ≡ false)
      → AllRefer (find_many keep xs) (find_many (λ b. not (gone b)) bs)
  AllRefer-without gone keep [] bs h away = tt
  AllRefer-without gone keep (a ∷ xs) bs h away = elim (Bool-cases (keep a)) [
    | inl kept ↦
        rw kept
          (any-kept (key a) gone bs h.0 (away a kept), AllRefer-without gone keep xs bs h.1 away)
    | inr goes ↦ rw goes (AllRefer-without gone keep xs bs h.1 away)
  ]

pub is_in-deleted :
    {B : Type 0} (id_of : B → ℕ) (j k : ℕ) (bs : List B)
    → (j == k) ≡ false
    → is_in (map id_of (find_many (λ b. id_of b == k) bs)) j ≡ false
is_in-deleted id_of j k [] ne = refl
is_in-deleted id_of j k (b ∷ bs) ne = ground (arith, is_in-deleted id_of j k bs ne)

-- Every row that refers to another one refers to one that is there.
pub record IsLinked (db : Db) : Type 0 where
  pub reservations :
      AllRefer (λ (x : User). x.id) (λ (y : Reservation). y.user_id) db.reservations db.users
  pub cards :
      AllRefer (λ (x : User). x.id) (λ (y : PaymentMethod). y.user_id) db.payment_methods db.users
  pub lots : AllRefer (λ (x : User). x.id) (λ (y : ParkingLot). y.manager_id) db.lots db.users
  pub documents :
      AllRefer
        (λ (x : User). x.id)
        (λ (y : PolicyDocument). y.uploaded_by)
        db.policy_documents
        db.users
  pub payments :
      AllRefer
        (λ (x : Reservation). x.id)
        (λ (y : Payment). y.reservation_id)
        db.payments
        db.reservations
  pub qr_codes :
      AllRefer
        (λ (x : Reservation). x.id)
        (λ (y : QrCode). y.reservation_id)
        db.qr_codes
        db.reservations
  pub challans :
      AllRefer
        (λ (x : Reservation). x.id)
        (λ (y : Challan). y.reservation_id)
        db.challans
        db.reservations
  pub floors :
      AllRefer (λ (x : ParkingLot). x.id) (λ (y : ParkingFloor). y.lot_id) db.floors db.lots
  pub slots : AllRefer (λ (x : ParkingLot). x.id) (λ (y : ParkingSlot). y.lot_id) db.slots db.lots
  pub slots_on_floors :
      AllRefer (λ (x : ParkingFloor). x.id) (λ (y : ParkingSlot). y.floor_id) db.slots db.floors
  pub booked_lots :
      AllRefer (λ (x : ParkingLot). x.id) (λ (y : Reservation). y.lot_id) db.reservations db.lots
  pub booked_slots :
      AllRefer (λ (x : ParkingSlot). x.id) (λ (y : Reservation). y.slot_id) db.reservations db.slots

-- The audit log refers to nothing.
pub with_logs :
    (db : Db) (logs : List AuditLog) → IsLinked db → IsLinked (record db { audit_logs = logs })
with_logs db logs h = record {
  reservations = h.reservations;
  cards = h.cards;
  lots = h.lots;
  documents = h.documents;
  payments = h.payments;
  qr_codes = h.qr_codes;
  challans = h.challans;
  floors = h.floors;
  slots = h.slots;
  slots_on_floors = h.slots_on_floors;
  booked_lots = h.booked_lots;
  booked_slots = h.booked_slots;
}

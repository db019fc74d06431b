-- ===== src/Floors/SlotNumbers.antt =====
-- The slot numbers of a floor, and the deletion of slots by their ids: the lists that a resize in
-- parking-lot.service.ts compares.
use smart_parking_management.Prelude.{
  ℕ, Bool, true, false, not, ◌&&◌, ◌||◌, ◌≡◌, ◌≢◌, refl, sym, ap, ◌∙◌, List, [], ◌∷◌, ◌++◌, map,
  arith, find_many, any, All, Pairwise, ◌==◌, Bool-cases, inl, inr, ==_sound, ==_refl,
}
use smart_parking_management.Schema.{Text, ParkingSlot}
use smart_parking_management.Tables.{same_text}
use smart_parking_management.ParkingSlots.{is_in}
use smart_parking_management.Floors.{has_text, slots_of, to_add, delete_slots, new_slot}

-- No two slots have one id.
abbrev pub HasDistinctIds : List ParkingSlot → Type 0
HasDistinctIds = Pairwise (λ a b. a.id ≢ b.id)

-- Whether the floor has a slot with the number.
abbrev pub has_slot : ℕ → Text → List ParkingSlot → Bool
has_slot floor_id number slots =
    any (λ s. s.floor_id == floor_id && same_text s.slot_number number) slots

same_text_sound : (s t : Text) → same_text s t ≡ true → s ≡ t
same_text_sound [] [] h = refl
same_text_sound [] (_ ∷ _) h = cc
same_text_sound (_ ∷ _) [] h = cc
same_text_sound (a ∷ s) (b ∷ t) h =
    let first = ==_sound a b (ground arith) in
    let rest = same_text_sound s t (ground arith) in λ i. first i ∷ rest i

pub find_many-find_many :
    (p q : ParkingSlot → Bool) (xs : List ParkingSlot)
    → find_many q (find_many p xs) ≡ find_many (λ x. p x && q x) xs
find_many-find_many p q [] = refl
find_many-find_many p q (x ∷ xs) = ground (arith, find_many-find_many p q xs)

is_in-absent :
    (x : ParkingSlot) (p : ParkingSlot → Bool) (xs : List ParkingSlot)
    → All (λ b. x.id ≢ b.id) xs
    → is_in (map (λ s. s.id) (find_many p xs)) x.id ≡ false
is_in-absent x p [] h = refl
is_in-absent x p (y ∷ ys) h = ground (arith, h.0, is_in-absent x p ys h.1)

delete_slots-cons :
    (x : ParkingSlot) (ids : List ℕ) (xs : List ParkingSlot)
    → All (λ b. x.id ≢ b.id) xs
    → delete_slots (x.id ∷ ids) xs ≡ delete_slots ids xs
delete_slots-cons x ids [] h = refl
delete_slots-cons x ids (y ∷ ys) h = ground (arith, h.0, delete_slots-cons x ids ys h.1)

delete_slots_head :
    (x : ParkingSlot) (ids : List ℕ) (xs : List ParkingSlot)
    → All (λ b. x.id ≢ b.id) xs
    → delete_slots (x.id ∷ ids) (x ∷ xs) ≡ delete_slots ids xs
delete_slots_head x ids xs h = rw (==_refl x.id) (delete_slots-cons x ids xs h)

-- Deleting the slots that meet a condition by their ids keeps those that do not meet it.
pub delete_slots-find_many :
    (p : ParkingSlot → Bool) (xs : List ParkingSlot)
    → HasDistinctIds xs
    → delete_slots (map (λ s. s.id) (find_many p xs)) xs ≡ find_many (λ s. not (p s)) xs
delete_slots-find_many p [] h = refl
delete_slots-find_many p (x ∷ xs) h =
    let ids = map (λ (s : ParkingSlot). s.id) (find_many p xs) in
    let rest = delete_slots-find_many p xs h.1 in
    elim (Bool-cases (p x)) [
      | inl gone ↦
          let found : find_many p (x ∷ xs) ≡ x ∷ find_many p xs = rw gone refl in
          let dropped : find_many (λ s. not (p s)) (x ∷ xs) ≡ find_many (λ s. not (p s)) xs =
            rw gone refl in
          ap (λ l. delete_slots (map (λ (s : ParkingSlot). s.id) l) (x ∷ xs)) found
          ∙ delete_slots_head x ids xs h.0
          ∙ rest
          ∙ sym dropped
      | inr kept ↦
          let found : find_many p (x ∷ xs) ≡ find_many p xs = rw kept refl in
          let held : find_many (λ s. not (p s)) (x ∷ xs) ≡ x ∷ find_many (λ s. not (p s)) xs =
            rw kept refl in
          let stays : delete_slots ids (x ∷ xs) ≡ x ∷ delete_slots ids xs =
            rw (is_in-absent x p xs h.0) refl in
          ap (λ l. delete_slots (map (λ (s : ParkingSlot). s.id) l) (x ∷ xs)) found
          ∙ stays
          ∙ ap (◌∷◌ x) rest
          ∙ sym held
    ]

module _ (floor_id : ℕ) (target : List Text) (number : Text) where
  -- Of the slots that stay, one has the number if one had it before and the grid has it.
  pub has_slot-kept :
      (xs : List ParkingSlot)
      → has_slot floor_id number
          (find_many (λ s. not (s.floor_id == floor_id && not (has_text target s.slot_number))) xs)
        ≡ (has_slot floor_id number xs && has_text target number)
  has_slot-kept [] = refl
  has_slot-kept (x ∷ xs) = elim (Bool-cases (same_text x.slot_number number)) [
    | inl same ↦
        let grid : has_text target x.slot_number ≡ has_text target number =
          ap (has_text target) (same_text_sound x.slot_number number same) in
        ground (arith, has_slot-kept xs)
    | inr other ↦ ground (arith, has_slot-kept xs)
  ]

  pub has_text-existing :
      (xs : List ParkingSlot)
      → has_text (map (λ s. s.slot_number) (slots_of floor_id xs)) number
        ≡ has_slot floor_id number xs
  has_text-existing [] = refl
  has_text-existing (x ∷ xs) = ground (arith, has_text-existing xs)

  -- Of the numbers that are added, one is this one if the grid has it and no slot has it yet.
  pub has_text-add :
      (existing : List ParkingSlot) (ts : List Text)
      → has_text (to_add ts existing) number
        ≡ (has_text ts number && not (has_text (map (λ s. s.slot_number) existing) number))
  has_text-add existing [] = refl
  has_text-add existing (t ∷ ts) = elim (Bool-cases (same_text t number)) [
    | inl same ↦
        let old : has_text (map (λ s. s.slot_number) existing) t
            ≡ has_text (map (λ s. s.slot_number) existing) number =
          ap (has_text (map (λ s. s.slot_number) existing)) (same_text_sound t number same) in
        ground (arith, has_text-add existing ts)
    | inr other ↦ ground (arith, has_text-add existing ts)
  ]

  pub has_slot-new :
      (new_id : Text → ℕ) (lot_id price : ℕ) (added : List Text) (rest : List ParkingSlot)
      → has_slot floor_id number (map (new_slot new_id lot_id floor_id price) added ++ rest)
        ≡ (has_text added number || has_slot floor_id number rest)
  has_slot-new new_id lot_id price [] rest = refl
  has_slot-new new_id lot_id price (t ∷ ts) rest =
      rw (==_refl floor_id) (ground (arith, has_slot-new new_id lot_id price ts rest))

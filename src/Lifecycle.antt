-- ===== src/Lifecycle.antt =====
-- How the services may change the reservations: what the status enum of backend/prisma/schema.prisma
-- describes as the life of a reservation, and when two reservations of a slot are apart.
-- What the services' methods do is stated against it.
use smart_parking_management.Prelude.{
  ℕ, ◌+◌, ◌≤◌, Bool, true, false, ◌≡◌, ◌≢◌, refl, ◌⊎◌, some, List, [], ◌∷◌, arith, find_first,
  find_many, update_many, All, Pairwise, Forall₂, ◌==◌, Bool-cases, inl, inr, ==_sound, subst, sym,
}
use smart_parking_management.Schema.{Reservation}
use smart_parking_management.Schema.Status.{
  ReservationStatus, confirmed, checked_in, overtime, pending_payment, completed, cancelled,
  is_open,
}

-- The edges of the life of a reservation, and standing still.
abbrev pub may_become : ReservationStatus → ReservationStatus → Bool
may_become confirmed confirmed = true
may_become confirmed checked_in = true
may_become confirmed cancelled = true
may_become checked_in checked_in = true
may_become checked_in overtime = true
may_become checked_in completed = true
may_become overtime overtime = true
may_become overtime completed = true
may_become pending_payment pending_payment = true
may_become pending_payment completed = true
may_become completed completed = true
may_become cancelled cancelled = true
may_become _ _ = false

-- One reservation before and after a call: only its status, along an edge, and the times at which it
-- was checked in and out may differ.
pub record Progress (a b : Reservation) : Type 0 where
  pub same_id : b.id ≡ a.id
  pub same_user : b.user_id ≡ a.user_id
  pub same_lot : b.lot_id ≡ a.lot_id
  pub same_slot : b.slot_id ≡ a.slot_id
  pub same_start : b.start_time ≡ a.start_time
  pub same_end : b.end_time ≡ a.end_time
  pub same_price : b.total_price ≡ a.total_price
  pub edge : may_become a.status b.status ≡ true

pub Progress-refl : (a : Reservation) → Progress a a
Progress-refl a = ground arith

abbrev pub Distinct : List Reservation → Type 0
Distinct = Pairwise (λ a b. a.id ≢ b.id)

-- Two reservations of one slot that are both open leave the buffer between them.
abbrev pub Apart : ℕ → Reservation → Reservation → Type 0
Apart buffer a b =
    (a.id ≢ b.id)
    × (a.slot_id ≡ b.slot_id
        → is_open a.status ≡ true
        → is_open b.status ≡ true
        → (a.end_time + buffer ≤ b.start_time) ⊎ (b.end_time + buffer ≤ a.start_time))

-- Ids are unique, and no slot is booked twice.
abbrev pub NoDoubleBooking : ℕ → List Reservation → Type 0
NoDoubleBooking buffer = Pairwise (Apart buffer)

-- A reservation that is closed stays so.
pub may_become-is_open :
    (s t : ReservationStatus) → may_become s t ≡ true → is_open t ≡ true → is_open s ≡ true
may_become-is_open s t h o = ground arith

-- What keeps two reservations apart: no row moves, and none that is closed is opened.
pub record Keeps (a b : Reservation) : Type 0 where
  pub kept_id : b.id ≡ a.id
  pub kept_slot : b.slot_id ≡ a.slot_id
  pub kept_start : b.start_time ≡ a.start_time
  pub kept_end : b.end_time ≡ a.end_time
  pub not_opened : is_open b.status ≡ true → is_open a.status ≡ true

Progress-Keeps : (a b : Reservation) → Progress a b → Keeps a b
Progress-Keeps a b p = record {
  kept_id = p.same_id;
  kept_slot = p.same_slot;
  kept_start = p.same_start;
  kept_end = p.same_end;
  not_opened = may_become-is_open a.status b.status p.edge;
}

All-Progress-Keeps : (xs ys : List Reservation) → Forall₂ Progress xs ys → Forall₂ Keeps xs ys
All-Progress-Keeps [] [] ps = tt
All-Progress-Keeps [] (y ∷ ys) ps = elim ps [ ]
All-Progress-Keeps (x ∷ xs) [] ps = elim ps [ ]
All-Progress-Keeps (x ∷ xs) (y ∷ ys) ps = (Progress-Keeps x y ps.0, All-Progress-Keeps xs ys ps.1)

Apart-Keeps :
    (buffer : ℕ) (a b c d : Reservation)
    → Keeps a c
    → Keeps b d
    → Apart buffer a b
    → Apart buffer c d
Apart-Keeps buffer a b c d p q h = (
  λ e. h.0 (omega arith),
  λ e open_c open_d.
      let apart = h.1 (omega arith) (p.not_opened open_c) (q.not_opened open_d) in omega arith,
)

module _ (buffer : ℕ) where
  All-Apart-Keeps :
      (a c : Reservation) (xs ys : List Reservation)
      → Keeps a c
      → Forall₂ Keeps xs ys
      → All (Apart buffer a) xs
      → All (Apart buffer c) ys
  All-Apart-Keeps a c [] [] p ps h = tt
  All-Apart-Keeps a c [] (y ∷ ys) p ps h = elim ps [ ]
  All-Apart-Keeps a c (x ∷ xs) [] p ps h = elim ps [ ]
  All-Apart-Keeps a c (x ∷ xs) (y ∷ ys) p ps h =
      (Apart-Keeps buffer a x c y p ps.0 h.0, All-Apart-Keeps a c xs ys p ps.1 h.1)

  pub NoDoubleBooking-Keeps :
      (xs ys : List Reservation)
      → Forall₂ Keeps xs ys
      → NoDoubleBooking buffer xs
      → NoDoubleBooking buffer ys
  NoDoubleBooking-Keeps [] [] ps h = tt
  NoDoubleBooking-Keeps [] (y ∷ ys) ps h = elim ps [ ]
  NoDoubleBooking-Keeps (x ∷ xs) [] ps h = elim ps [ ]
  NoDoubleBooking-Keeps (x ∷ xs) (y ∷ ys) ps h =
      (All-Apart-Keeps x y xs ys ps.0 ps.1 h.0, NoDoubleBooking-Keeps xs ys ps.1 h.1)

  -- Progress of every reservation keeps the slots free of double bookings.
  pub NoDoubleBooking-Progress :
      (xs ys : List Reservation)
      → Forall₂ Progress xs ys
      → NoDoubleBooking buffer xs
      → NoDoubleBooking buffer ys
  NoDoubleBooking-Progress xs ys ps = NoDoubleBooking-Keeps xs ys (All-Progress-Keeps xs ys ps)

  All-Apart-Distinct :
      (a : Reservation) (xs : List Reservation)
      → All (Apart buffer a) xs
      → All (λ b. a.id ≢ b.id) xs
  All-Apart-Distinct a [] h = tt
  All-Apart-Distinct a (x ∷ xs) h = (h.0.0, All-Apart-Distinct a xs h.1)

  pub NoDoubleBooking-Distinct : (xs : List Reservation) → NoDoubleBooking buffer xs → Distinct xs
  NoDoubleBooking-Distinct [] h = tt
  NoDoubleBooking-Distinct (x ∷ xs) h =
      (All-Apart-Distinct x xs h.0, NoDoubleBooking-Distinct xs h.1)

-- Rows that are deleted leave the others as they were.
pub All-kept :
    (P : Reservation → Type 0) (p : Reservation → Bool) (rs : List Reservation)
    → All P rs
    → All P (find_many p rs)
All-kept P p [] h = tt
All-kept P p (r ∷ rs) h = elim (Bool-cases (p r)) [
  | inl kept ↦ rw kept (h.0, All-kept P p rs h.1)
  | inr gone ↦ rw gone (All-kept P p rs h.1)
]

-- A deletion of reservations keeps the slots free of double bookings.
pub NoDoubleBooking-find_many :
    (buffer : ℕ) (p : Reservation → Bool) (rs : List Reservation)
    → NoDoubleBooking buffer rs
    → NoDoubleBooking buffer (find_many p rs)
NoDoubleBooking-find_many buffer p [] h = tt
NoDoubleBooking-find_many buffer p (r ∷ rs) h = elim (Bool-cases (p r)) [
  | inl kept ↦
      rw kept (All-kept (Apart buffer r) p rs h.0, NoDoubleBooking-find_many buffer p rs h.1)
  | inr gone ↦ rw gone (NoDoubleBooking-find_many buffer p rs h.1)
]

pub All-Progress-refl : (rs : List Reservation) → Forall₂ Progress rs rs
All-Progress-refl [] = tt
All-Progress-refl (r ∷ rs) = (Progress-refl r, All-Progress-refl rs)

-- No row carries an id that every row differs from, so an update by that id changes none.
pub update_absent :
    (k : ℕ) (f : Reservation → Reservation) (a : Reservation) (rs : List Reservation)
    → a.id ≡ k
    → All (λ b. a.id ≢ b.id) rs
    → update_many (λ r. r.id == k) f rs ≡ rs
update_absent k f a [] e h = refl
update_absent k f a (r ∷ rs) e h = ground (arith, update_absent k f a rs e h.1)

-- An update by id that moves the row found there along an edge is progress of all rows.
pub update-Progress :
    (k : ℕ) (f : Reservation → Reservation) (rs : List Reservation) (r : Reservation)
    → Distinct rs
    → find_first (λ x. x.id == k) rs ≡ some r
    → Progress r (f r)
    → Forall₂ Progress rs (update_many (λ x. x.id == k) f rs)
update-Progress k f [] r d e p = tt
update-Progress k f (x ∷ xs) r d e p = elim (Bool-cases (x.id == k)) [
  | inl here ↦ rw here (
    subst (λ y. Progress y (f y)) (sym (found e here)) p,
    rw (update_absent k f x xs (==_sound x.id k here) d.0) (All-Progress-refl xs),
  )
  | inr there ↦ rw there (Progress-refl x, update-Progress k f xs r d.1 (rw there at e) p)
]
  where
    found : find_first (λ y. y.id == k) (x ∷ xs) ≡ some r → (x.id == k) ≡ true → x ≡ r
    found e h = ground arith

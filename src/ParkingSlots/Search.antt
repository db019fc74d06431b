-- ===== src/ParkingSlots/Search.antt =====
-- The search of a window against the check that a booking makes.
use smart_parking_management.Prelude.{
  ℕ, ◌+◌, Bool, true, false, not, ◌&&◌, ◌≡◌, refl, sym, ap, subst, some, List, [], ◌∷◌, map, arith,
  find_many, any, All, ◌==◌, Bool-cases, inl, inr, ==_sound, ==_refl,
}
use smart_parking_management.Schema.{Db, ParkingSlot, Reservation}
use smart_parking_management.Schema.Status.{is_maintenance}
use smart_parking_management.Action.{ok}
use smart_parking_management.Environment.{Env, Ids, Config, minutes_ms, buffer_ms}
use smart_parking_management.Reservations.{CreateReservationDto, overlaps, booked_row, create}
use smart_parking_management.Reservations.Booking.{CanBook, CanBook-create}
use smart_parking_management.ParkingSlots.{
  FindSlotsDto, SearchResult, is_in, blocks, slot_ids, matches_slot, search_window, annotate,
}

module _ (ids : List ℕ) (arrival block_end buffer : ℕ) where
  blocks_one :
      (k : ℕ) (r : Reservation)
      → is_in ids k ≡ true
      → (blocks ids arrival block_end buffer r && r.slot_id == k)
        ≡ overlaps k arrival block_end buffer r
  blocks_one k r h = elim (Bool-cases (r.slot_id == k)) [
    | inl same ↦
        let e = ==_sound r.slot_id k same in
        let listed : is_in ids r.slot_id ≡ true = subst (λ j. is_in ids j ≡ true) (sym e) h in
        ground arith
    | inr other ↦ ground arith
  ]

  -- Of the listed slots, those that the search finds blocked are those that a booking finds taken.
  blocked-overlaps :
      (k : ℕ) (rs : List Reservation)
      → is_in ids k ≡ true
      → is_in (map (λ r. r.slot_id) (find_many (blocks ids arrival block_end buffer) rs)) k
        ≡ any (overlaps k arrival block_end buffer) rs
  blocked-overlaps k [] h = refl
  blocked-overlaps k (r ∷ rs) h =
      let one = blocks_one k r h in
      let rest = blocked-overlaps k rs h in
      elim (Bool-cases (blocks ids arrival block_end buffer r)) [
        | inl blocking ↦ rw blocking (ground arith)
        | inr clear ↦ rw clear (ground arith)
      ]

-- Whether a booking of the slot in the window would meet no other.
abbrev pub is_bookable : ℕ → ℕ → ℕ → List Reservation → ParkingSlot → Bool
is_bookable arrival block_end buffer rs slot =
    not (is_maintenance slot.status) && not (any (overlaps slot.id arrival block_end buffer) rs)

abbrev flagged : (ParkingSlot → Bool) → ParkingSlot → SearchResult
flagged f slot = record { slot = slot; available_for_window = some (f slot) }

map-flagged :
    (blocked : List ℕ) (f : ParkingSlot → Bool) (slots : List ParkingSlot)
    → All (λ s. (not (is_maintenance s.status) && not (is_in blocked s.id)) ≡ f s) slots
    → map (annotate blocked) slots ≡ map (flagged f) slots
map-flagged blocked f [] h = refl
map-flagged blocked f (s ∷ ss) h =
    λ i. record { slot = s; available_for_window = some (h.0 i) } ∷ map-flagged blocked f ss h.1 i

All-listed :
    (ids : List ℕ) (arrival block_end buffer : ℕ) (rs : List Reservation) (slots : List ParkingSlot)
    → All (λ s. is_in ids s.id ≡ true) slots
    → All
        (λ s.
          (not (is_maintenance s.status)
            && not (
                is_in
                  (map (λ r. r.slot_id) (find_many (blocks ids arrival block_end buffer) rs))
                  s.id))
          ≡ is_bookable arrival block_end buffer rs s)
        slots
All-listed ids arrival block_end buffer rs [] h = tt
All-listed ids arrival block_end buffer rs (s ∷ ss) h = (
  ap (λ b. not (is_maintenance s.status) && not b)
      (blocked-overlaps ids arrival block_end buffer s.id rs h.0),
  All-listed ids arrival block_end buffer rs ss h.1,
)

is_in-cons :
    (k : ℕ) (ids : List ℕ) (ss : List ParkingSlot)
    → All (λ s. is_in ids s.id ≡ true) ss
    → All (λ s. is_in (k ∷ ids) s.id ≡ true) ss
is_in-cons k ids [] h = tt
is_in-cons k ids (s ∷ ss) h = (ground (arith, h.0), is_in-cons k ids ss h.1)

is_in-slot_ids : (slots : List ParkingSlot) → All (λ s. is_in (slot_ids slots) s.id ≡ true) slots
is_in-slot_ids [] = tt
is_in-slot_ids (s ∷ ss) = (rw (==_refl s.id), is_in-cons s.id (slot_ids ss) ss (is_in-slot_ids ss))

-- The search flags a slot as free for a window exactly if it is not restricted and the overlap check
-- of a booking for that window finds nothing.
pub search_window-is_bookable :
    (config : Config) (dto : FindSlotsDto) (arrival duration : ℕ) (db : Db)
    → search_window config dto arrival duration db
      ≡ map
          (λ slot. record {
            slot = slot;
            available_for_window = some (
                is_bookable arrival
                  (arrival + minutes_ms duration + buffer_ms config)
                  (buffer_ms config)
                  db.reservations
                  slot);
          })
          (find_many (matches_slot dto dto.status) db.slots)
unfolding search_window
search_window-is_bookable config dto arrival duration db =
    let slots = find_many (matches_slot dto dto.status) db.slots in
    map-flagged _ _ slots (
      All-listed (slot_ids slots) arrival (arrival + minutes_ms duration + buffer_ms config)
        (buffer_ms config) db.reservations slots (is_in-slot_ids slots))

restricted_not_free :
    (blocked : List ℕ) (slots : List ParkingSlot)
    → All
        (λ e. is_maintenance e.slot.status ≡ true → e.available_for_window ≡ some false)
        (map (annotate blocked) slots)
restricted_not_free blocked [] = tt
restricted_not_free blocked (s ∷ ss) = ((λ h. rw h refl), restricted_not_free blocked ss)

-- A search for a window flags no restricted slot as free, and yet a request to book a restricted slot
-- for that window that meets the other conditions is accepted.
pub restricted_slot_bookable :
    (env : Env) (ids : Ids) (search : FindSlotsDto) (dto : CreateReservationDto) (user : ℕ)
    (db : Db) (c : CanBook env dto db)
    → is_maintenance c.slot.status ≡ true
    → All
        (λ e. is_maintenance e.slot.status ≡ true → e.available_for_window ≡ some false)
        (search_window env.config search dto.arrival_time dto.duration_minutes db)
      × ((create env ids dto user db).0 ≡ ok (booked_row ids dto user c.slot, ids.qr_token))
unfolding search_window
restricted_slot_bookable env ids search dto user db c restricted =
    (restricted_not_free _ _, (CanBook-create env ids dto user db c).0)

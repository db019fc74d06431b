-- ===== src/Checkpoint/Payments.antt =====
-- The upsert of a payment, which a check-out makes.
use smart_parking_management.Prelude.{
  ℕ, ◌≡◌, ◌≢◌, some, List, [], ◌∷◌, arith, find_first, Bool-cases, inl, inr, ◌==◌, if◌then◌else◌,
  Pairwise, All, ==_sound,
}
use smart_parking_management.Schema.{Payment}
use smart_parking_management.Checkpoint.{upsert_payment}

-- No reservation has two payments.
abbrev pub HasOnePayment : List Payment → Type 0
HasOnePayment = Pairwise (λ p q. p.reservation_id ≢ q.reservation_id)

All-upsert :
    (k : ℕ) (new : Payment) (ps : List Payment)
    → k ≢ new.reservation_id
    → All (λ q. k ≢ q.reservation_id) ps
    → All (λ q. k ≢ q.reservation_id) (upsert_payment new ps)
unfolding upsert_payment
All-upsert k new [] ne h = (ne, tt)
All-upsert k new (p ∷ ps) ne h = ground (arith, All-upsert k new ps ne h.1)

upsert-HasOnePayment :
    (new : Payment) (ps : List Payment) → HasOnePayment ps → HasOnePayment (upsert_payment new ps)
unfolding upsert_payment
upsert-HasOnePayment new [] h = (tt, tt)
upsert-HasOnePayment new (p ∷ ps) h = elim (Bool-cases (p.reservation_id == new.reservation_id)) [
  | inl same ↦ rw same (rw (← ==_sound p.reservation_id new.reservation_id same) h.0, h.1)
  | inr other ↦
      rw other
        (All-upsert p.reservation_id new ps (ground arith) h.0, upsert-HasOnePayment new ps h.1)
]

-- A payment looked up after the upsert.
pub find-upsert :
    (k : ℕ) (new : Payment) (ps : List Payment)
    → find_first (λ p. p.reservation_id == k) (upsert_payment new ps)
      ≡ (if new.reservation_id == k then some new else find_first (λ p. p.reservation_id == k) ps)
unfolding upsert_payment
find-upsert k new [] = ground arith
find-upsert k new (p ∷ ps) = ground (arith, find-upsert k new ps)

-- If no reservation has two payments, the upsert writes the one payment of its reservation, keeps
-- the payments of the others, and leaves no reservation with two.
pub upsert_payment_lem :
    (k : ℕ) (new : Payment) (ps : List Payment)
    → HasOnePayment ps
    → HasOnePayment (upsert_payment new ps)
      × (find_first (λ p. p.reservation_id == k) (upsert_payment new ps) ≡ (
          if new.reservation_id == k then some new else find_first (λ p. p.reservation_id == k) ps))
upsert_payment_lem k new ps h = (upsert-HasOnePayment new ps h, find-upsert k new ps)

-- ===== src/Billing/Charges.antt =====
-- What the final charge of billing.service.ts amounts to.
use smart_parking_management.Prelude.{ℕ, ◌+◌, ◌≡◌, List, [], ◌∷◌, arith, if◌then◌else◌, ◌==◌}
use smart_parking_management.Schema.{Reservation, Challan}
use smart_parking_management.Billing.{sum_amounts, challans_of, final_charge}

-- What the challans of one reservation add up to.
abbrev pub owed : ℕ → List Challan → ℕ
owed reservation_id [] = 0
owed reservation_id (c ∷ cs) =
    (if c.reservation_id == reservation_id then c.amount else 0) + owed reservation_id cs

sum_amounts-owed :
    (id acc : ℕ) (cs : List Challan) → sum_amounts acc (challans_of id cs) ≡ acc + owed id cs
unfolding sum_amounts
sum_amounts-owed id acc [] = omega arith
sum_amounts-owed id acc (c ∷ cs) =
    ground (arith, sum_amounts-owed id acc cs, sum_amounts-owed id (acc + c.amount) cs)

-- The final charge is the price fixed at booking plus every challan issued for the reservation.
pub final_charge-owed :
    (r : Reservation) (cs : List Challan) → final_charge r cs ≡ r.total_price + owed r.id cs
unfolding final_charge
final_charge-owed r cs = omega (arith, sum_amounts-owed r.id 0 cs)

-- A challan issued for the reservation raises its final charge by exactly its amount, and a challan
-- issued for another one leaves it.
pub final_charge-cons :
    (r : Reservation) (c : Challan) (cs : List Challan)
    → final_charge r (c ∷ cs)
      ≡ (if c.reservation_id == r.id then c.amount else 0) + final_charge r cs
final_charge-cons r c cs = omega (arith, final_charge-owed r cs, final_charge-owed r (c ∷ cs))

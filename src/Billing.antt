-- ===== src/Billing.antt =====
-- backend/src/modules/reservation/billing.util.ts and billing.service.ts.
-- Amounts are whole cents, so `Math.round(x * 100) / 100` is the identity on a sum or a multiple of
-- them, and the rounding of the code's floating-point values is not modelled.
pub mod Hours
pub mod Charges
use smart_parking_management.Prelude.{
  ℕ, ◌+◌, ◌-◌, ◌*◌, ◌/◌, List, [], ◌∷◌, find_many, if◌then◌else◌, ltb, ◌==◌,
}
use smart_parking_management.Schema.{Reservation, Challan}
use smart_parking_management.Action.{Action, gets}

abbrev pub minutes_per_hour : ℕ
minutes_per_hour = 60

-- `Math.max(1, Math.ceil(minutes / MINUTES_PER_HOUR))`
unfoldable pub round_up_hours : ℕ → ℕ
round_up_hours minutes =
    let hours = (minutes + (minutes_per_hour - 1)) / minutes_per_hour in
    if ltb hours 1 then 1 else hours

unfoldable pub calculate_base_charge : ℕ → ℕ → ℕ
unfolding round_up_hours
calculate_base_charge hourly_rate duration_minutes = hourly_rate * round_up_hours duration_minutes

-- The `reduce` over the challans' amounts, from the left.
pub sum_amounts : ℕ → List Challan → ℕ
sum_amounts sum [] = sum
sum_amounts sum (challan ∷ challans) = sum_amounts (sum + challan.amount) challans

-- `where: { reservationId }`
abbrev pub challans_of : ℕ → List Challan → List Challan
challans_of reservation_id = find_many (λ challan. challan.reservation_id == reservation_id)

-- `BillingService.calculateFinalCharge`, on the table of challans.
unfoldable pub final_charge : Reservation → List Challan → ℕ
unfolding sum_amounts
final_charge reservation challans =
    let challan_total = sum_amounts 0 (challans_of reservation.id challans) in
    reservation.total_price + challan_total

abbrev pub calculate_final_charge : Reservation → Action ℕ
calculate_final_charge reservation = gets (λ db. final_charge reservation db.challans)

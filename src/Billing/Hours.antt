-- ===== src/Billing/Hours.antt =====
-- What the hour-based base charge of billing.util.ts amounts to.
use smart_parking_management.Prelude.{ℕ, ◌*◌, ◌≤◌, arith}
use smart_parking_management.Billing.{round_up_hours, calculate_base_charge}

-- The billed hours cover the duration and are at least one, and no other number of hours that does
-- is smaller.
pub round_up_hours_least :
    (minutes hours : ℕ)
    → 1 ≤ hours
    → minutes ≤ 60 * hours
    → (minutes ≤ 60 * round_up_hours minutes)
      × (1 ≤ round_up_hours minutes)
      × (round_up_hours minutes ≤ hours)
unfolding round_up_hours
round_up_hours_least minutes hours pos covers = (ground arith, ground arith, ground arith)

times_bounds : (rate h : ℕ) → 1 ≤ h → h ≤ 24 → (rate ≤ rate * h) × (rate * h ≤ 24 * rate)
times_bounds rate h lo hi = (grind arith, grind arith)

-- A booking within the limits of CreateReservationDto, 15 minutes to 24 hours, is charged for one
-- to 24 hours of the slot's hourly rate.
pub calculate_base_charge_bounds :
    (rate minutes : ℕ)
    → 15 ≤ minutes
    → minutes ≤ 1440
    → (rate ≤ calculate_base_charge rate minutes) × (calculate_base_charge rate minutes ≤ 24 * rate)
unfolding calculate_base_charge
calculate_base_charge_bounds rate minutes lo hi =
    let (_, some_hours, within) = round_up_hours_least minutes 24 (omega arith) (omega arith) in
    times_bounds rate (round_up_hours minutes) some_hours within

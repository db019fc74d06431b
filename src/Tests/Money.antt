-- ===== src/Tests/Money.antt =====
-- Runs of the charges, the slot numbers and the notifications.
use smart_parking_management.Prelude.{◌≡◌, [], ◌∷◌, refl}
use smart_parking_management.Schema.{Challan}
use smart_parking_management.Schema.Status.{ChallanType}
use smart_parking_management.Grid.{row_label, to_decimal, slot_number}

abbrev hour_challan : Challan
hour_challan = record {
  reservation_id = 20;
  challan_type = ChallanType.extension;
  amount = 250;
  for_checkout_at = 1_009_000_000;
}

row_28 : slot_number 28 105 ≡ b'A' ∷ b'B' ∷ b'1' ∷ b'0' ∷ b'5' ∷ []
unfolding slot_number row_label to_decimal
row_28 = refl

-- ===== src/Grid.antt =====
-- backend/src/modules/parking-lot/row-label.util.ts, and the slot grid that
-- backend/src/modules/parking-lot/parking-lot.service.ts builds for a floor.
pub mod Labels
pub mod Numbers
use smart_parking_management.Prelude.{
  ℕ, zero, suc, ◌+◌, ◌-◌, ◌*◌, ◌/◌, ◌%◌, Bool, true, false, List, [], ◌∷◌, ◌++◌, ◌==◌,
}
use smart_parking_management.Schema.{Text}

-- The `while (n > 0)` of `rowLabel`; each round puts a letter in front. `index` rounds are enough,
-- since every round makes n smaller.
label_loop : ℕ → ℕ → Text → Text
label_loop zero n label = label
label_loop (suc fuel) n label = elim (n == 0) [
  | true ↦ label
  | false ↦ label_loop fuel ((n - 1) / 26) ((65 + (n - 1) % 26) ∷ label)
]

unfoldable pub row_label : ℕ → Text
unfolding label_loop
row_label index = label_loop index index []

-- The decimal digits of a number, as a template string prints it.
decimal_loop : ℕ → ℕ → Text → Text
decimal_loop zero n digits = digits
decimal_loop (suc fuel) n digits = elim (n == 0) [
  | true ↦ digits
  | false ↦ decimal_loop fuel (n / 10) ((48 + n % 10) ∷ digits)
]

unfoldable pub to_decimal : ℕ → Text
unfolding decimal_loop
to_decimal n = elim (n == 0) [ true ↦ 48 ∷ [] | false ↦ decimal_loop n n [] ]

-- `${label}${col}`
unfoldable pub slot_number : ℕ → ℕ → Text
slot_number row col = row_label row ++ to_decimal col

-- The inner loop of `buildSlotGrid`, over the columns that are left.
pub row_numbers : ℕ → ℕ → ℕ → List Text
row_numbers row col zero = []
row_numbers row col (suc left) = slot_number row col ∷ row_numbers row (col + 1) left

-- The outer loop, over the rows that are left.
pub grid_from : ℕ → ℕ → ℕ → List Text
unfolding row_numbers
grid_from row zero columns = []
grid_from row (suc left) columns = row_numbers row 1 columns ++ grid_from (row + 1) left columns

-- The slot numbers of a floor, in the order in which they are built.
unfoldable pub build_slot_grid_numbers : ℕ → ℕ → List Text
unfolding grid_from
build_slot_grid_numbers rows columns = grid_from 1 rows columns

-- ===== src/Grid/Numbers.antt =====
-- The slot numbers of a floor: as many as rows times columns, all different, and exactly the
-- positions of the grid.
use smart_parking_management.Prelude.{
  ℕ, zero, suc, ◌+◌, ◌*◌, ◌≤◌, ◌<◌, ◌≡◌, ◌≢◌, refl, ap, List, [], ◌∷◌, ◌++◌, arith, length, All,
  Pairwise,
}
use smart_parking_management.Schema.{Text}
use smart_parking_management.Grid.{slot_number, row_numbers, grid_from, build_slot_grid_numbers}
use smart_parking_management.Grid.Labels.{Position, at, read_from, read-slot_number}

module _ {A : Type 0} where
  pub length-append : (xs ys : List A) → length (xs ++ ys) ≡ length xs + length ys
  length-append [] ys = omega arith
  length-append (x ∷ xs) ys = omega (arith, length-append xs ys)

  All-append : (P : A → Type 0) (xs ys : List A) → All P xs → All P ys → All P (xs ++ ys)
  All-append P [] ys p q = q
  All-append P (x ∷ xs) ys p q = (p.0, All-append P xs ys p.1 q)

  All-map : (P Q : A → Type 0) → ((a : A) → P a → Q a) → (xs : List A) → All P xs → All Q xs
  All-map P Q f [] p = tt
  All-map P Q f (x ∷ xs) p = (f x p.0, All-map P Q f xs p.1)

  Pairwise-append :
      (R : A → A → Type 0) (xs ys : List A)
      → Pairwise R xs
      → Pairwise R ys
      → All (λ x. All (R x) ys) xs
      → Pairwise R (xs ++ ys)
  Pairwise-append R [] ys p q h = q
  Pairwise-append R (x ∷ xs) ys p q h =
      (All-append (R x) xs ys p.0 h.0, Pairwise-append R xs ys p.1 q h.1)

-- Where a slot number says that its slot is.
abbrev pub position : Text → Position
position = read_from (at 0 0)

abbrev InRow : ℕ → ℕ → ℕ → Text → Type 0
InRow row from to number =
    ((position number).row ≡ row) × (from ≤ (position number).col) × ((position number).col < to)

slot_number-InRow :
    (row col from to : ℕ) → from ≤ col → col < to → InRow row from to (slot_number row col)
slot_number-InRow row col from to lo hi = rw read-slot_number (refl, lo, hi)

row_numbers-InRow :
    (row col left from : ℕ)
    → from ≤ col
    → All (InRow row from (col + left)) (row_numbers row col left)
unfolding row_numbers
row_numbers-InRow row col zero from lo = tt
row_numbers-InRow row col (suc left) from lo = (
  slot_number-InRow row col from (col + suc left) lo (omega arith),
  All-map (InRow row from (col + 1 + left)) (InRow row from (col + suc left))
      (λ t h. (h.0, h.1, omega arith)) (row_numbers row (col + 1) left)
      (row_numbers-InRow row (col + 1) left from (omega arith)),
)

length-row_numbers : (row col left : ℕ) → length (row_numbers row col left) ≡ left
unfolding row_numbers
length-row_numbers row col zero = refl
length-row_numbers row col (suc left) = ap suc (length-row_numbers row (col + 1) left)

pub length-grid_from : (row left columns : ℕ) → length (grid_from row left columns) ≡ left * columns
unfolding grid_from
length-grid_from row zero columns = omega arith
length-grid_from row (suc left) columns = omega (
  arith,
  length-append (row_numbers row 1 columns) (grid_from (row + 1) left columns),
  length-row_numbers row 1 columns,
  length-grid_from (row + 1) left columns,
)

row_numbers-distinct : (row col left : ℕ) → Pairwise (λ s t. s ≢ t) (row_numbers row col left)
unfolding row_numbers
row_numbers-distinct row col zero = tt
row_numbers-distinct row col (suc left) = (
  All-map (InRow row (col + 1) (col + 1 + left)) (λ t. slot_number row col ≢ t)
      (λ t h e.
        let same : (position (slot_number row col)).col ≡ (position t).col =
          ap (λ u. (position u).col) e in
        let mine : (position (slot_number row col)).col ≡ col =
          ap (λ (p : Position). p.col) (read-slot_number row col) in
        omega arith)
      (row_numbers row (col + 1) left)
      (row_numbers-InRow row (col + 1) left (col + 1) (omega arith)),
  row_numbers-distinct row (col + 1) left,
)

-- A slot number of the rows from one on.
abbrev InGrid : ℕ → ℕ → ℕ → Text → Type 0
InGrid row to columns number =
    (row ≤ (position number).row)
    × ((position number).row < to)
    × (1 ≤ (position number).col)
    × ((position number).col ≤ columns)

grid_from-InGrid :
    (row left columns from : ℕ)
    → from ≤ row
    → All (InGrid from (row + left) columns) (grid_from row left columns)
unfolding grid_from
grid_from-InGrid row zero columns from lo = tt
grid_from-InGrid row (suc left) columns from lo =
    All-append _ (row_numbers row 1 columns) (grid_from (row + 1) left columns)
      (All-map (InRow row 1 (1 + columns)) (InGrid from (row + suc left) columns)
        (λ t h. omega arith) (row_numbers row 1 columns)
        (row_numbers-InRow row 1 columns 1 (omega arith)))
      (All-map (InGrid from (row + 1 + left) columns) (InGrid from (row + suc left) columns)
        (λ t h. omega arith) (grid_from (row + 1) left columns)
        (grid_from-InGrid (row + 1) left columns from (omega arith)))

grid_from-distinct : (row left columns : ℕ) → Pairwise (λ s t. s ≢ t) (grid_from row left columns)
unfolding grid_from
grid_from-distinct row zero columns = tt
grid_from-distinct row (suc left) columns =
    Pairwise-append _ (row_numbers row 1 columns) (grid_from (row + 1) left columns)
      (row_numbers-distinct row 1 columns) (grid_from-distinct (row + 1) left columns)
      (All-map (InRow row 1 (1 + columns))
        (λ s. All (λ t. s ≢ t) (grid_from (row + 1) left columns))
        (λ s h.
          All-map (InGrid (row + 1) (row + 1 + left) columns) (λ t. s ≢ t)
            (λ t g e.
              let same : (position s).row ≡ (position t).row = ap (λ u. (position u).row) e in
              omega arith)
            (grid_from (row + 1) left columns)
            (grid_from-InGrid (row + 1) left columns (row + 1) (omega arith)))
        (row_numbers row 1 columns) (row_numbers-InRow row 1 columns 1 (omega arith)))

-- The grid of a floor has rows times columns slots, no two of them share a number, and each number
-- names a row and a column of the grid.
pub build_slot_grid_numbers_lem :
    (rows columns : ℕ)
    → (length (build_slot_grid_numbers rows columns) ≡ rows * columns)
      × Pairwise (λ s t. s ≢ t) (build_slot_grid_numbers rows columns)
      × All
          (λ number.
            (1 ≤ (position number).row)
            × ((position number).row ≤ rows)
            × (1 ≤ (position number).col)
            × ((position number).col ≤ columns))
          (build_slot_grid_numbers rows columns)
unfolding build_slot_grid_numbers
build_slot_grid_numbers_lem rows columns = (
  length-grid_from 1 rows columns,
  grid_from-distinct 1 rows columns,
  All-map (InGrid 1 (1 + rows) columns) _ (λ t h. omega arith) (grid_from 1 rows columns)
      (grid_from-InGrid 1 rows columns 1 (omega arith)),
)

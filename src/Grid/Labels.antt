-- ===== src/Grid/Labels.antt =====
-- The labels of the rows and the numbers of the slots, read back.
use smart_parking_management.Prelude.{
  ℕ, zero, suc, ◌+◌, ◌-◌, ◌*◌, ◌/◌, ◌%◌, ◌≤◌, ◌≡◌, ◌≢◌, refl, ap, ◌∙◌, [], ◌∷◌, ◌++◌, ◌==◌, arith,
  leb, if◌then◌else◌, Bool-cases, inl, inr,
}
use smart_parking_management.Schema.{Text}
use smart_parking_management.Grid.{label_loop, row_label, decimal_loop, to_decimal, slot_number}

-- Reads a slot number: letters count in base 26 from A = 1, digits in base 10.
pub record Position : Type 0 where
  pub row : ℕ
  pub col : ℕ

abbrev pub read_char : Position → ℕ → Position
read_char p c =
    if leb 65 c
    then record { row = p.row * 26 + (c - 64); col = p.col }
    else record { row = p.row; col = p.col * 10 + (c - 48) }

abbrev pub read_from : Position → Text → Position
read_from p [] = p
read_from p (c ∷ cs) = read_from (read_char p c) cs

abbrev pub at : ℕ → ℕ → Position
at row col = record { row = row; col = col }

read_letter : (n : ℕ) → n ≢ 0 → read_char (at ((n - 1) / 26) 0) (65 + (n - 1) % 26) ≡ at n 0
read_letter n pos = ground arith

read_digit : (row n : ℕ) → read_char (at row (n / 10)) (48 + n % 10) ≡ at row n
read_digit row n = ground arith

read_label_loop :
    (fuel n : ℕ) (rest : Text)
    → n ≤ fuel
    → read_from (at 0 0) (label_loop fuel n rest) ≡ read_from (at n 0) rest
unfolding label_loop
read_label_loop zero n rest h = let e : n ≡ 0 = omega arith in rw e
read_label_loop (suc fuel) n rest h = elim (Bool-cases (n == 0)) [
  | inl done ↦ rw (done, read_from) (let e : n ≡ 0 = ground arith in rw e)
  | inr more ↦
      rw (more, read_from)
        (read_label_loop fuel ((n - 1) / 26) ((65 + (n - 1) % 26) ∷ rest) (ground arith)
          ∙ ap (λ p. read_from p rest) (read_letter n (ground arith)))
]

read_decimal_loop :
    (fuel row n : ℕ) (rest : Text)
    → n ≤ fuel
    → read_from (at row 0) (decimal_loop fuel n rest) ≡ read_from (at row n) rest
unfolding decimal_loop
read_decimal_loop zero row n rest h = let e : n ≡ 0 = omega arith in rw e
read_decimal_loop (suc fuel) row n rest h = elim (Bool-cases (n == 0)) [
  | inl done ↦ rw (done, read_from) (let e : n ≡ 0 = ground arith in rw e)
  | inr more ↦
      rw (more, read_from)
        (read_decimal_loop fuel row (n / 10) ((48 + n % 10) ∷ rest) (ground arith)
          ∙ ap (λ p. read_from p rest) (read_digit row n))
]

read_from-append :
    (p : Position) (xs ys : Text) → read_from p (xs ++ ys) ≡ read_from (read_from p xs) ys
read_from-append p [] ys = refl
read_from-append p (x ∷ xs) ys = read_from-append (read_char p x) xs ys

-- A row's label, read in base 26, is the row: no two rows share a label, and the loop ends.
pub read-row_label : (n : ℕ) → read_from (at 0 0) (row_label n) ≡ at n 0
unfolding row_label
read-row_label n = read_label_loop n n [] (omega arith)

read-to_decimal : (row n : ℕ) → read_from (at row 0) (to_decimal n) ≡ at row n
unfolding to_decimal
read-to_decimal row n = elim (Bool-cases (n == 0)) [
  | inl none_left ↦ rw (none_left, read_from) (let e : n ≡ 0 = ground arith in rw e)
  | inr some_left ↦ rw (some_left, read_from) (read_decimal_loop n row n [] (omega arith))
]

-- A slot number can be read back: its letters give the row and its digits the column.
pub read-slot_number : (row col : ℕ) → read_from (at 0 0) (slot_number row col) ≡ at row col
unfolding slot_number
read-slot_number row col =
    read_from-append (at 0 0) (row_label row) (to_decimal col)
    ∙ ap (λ p. read_from p (to_decimal col)) (read-row_label row)
    ∙ read-to_decimal row col

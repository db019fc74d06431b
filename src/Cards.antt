-- ===== src/Cards.antt =====
-- The checks of a card and of a password: backend/src/common/validators, and the card form of
-- frontend/src/lib/card-form.ts with frontend/src/lib/validators.ts. Characters are UTF-16 units.
pub mod Luhn
pub mod Form
use smart_parking_management.Prelude.{
  ℕ, zero, suc, ◌+◌, ◌-◌, ◌*◌, ◌%◌, Bool, true, false, not, ◌&&◌, ◌||◌, Option, none, some, List,
  [], ◌∷◌, ◌++◌, any, length, ltb, leb, ◌==◌, if◌then◌else◌,
}
use smart_parking_management.Schema.{Text}

abbrev pub is_digit : ℕ → Bool
is_digit c = leb 48 c && leb c 57

abbrev pub all_digits : Text → Bool
all_digits [] = true
all_digits (c ∷ cs) = is_digit c && all_digits cs

abbrev pub reverse_onto : Text → Text → Text
reverse_onto [] ys = ys
reverse_onto (x ∷ xs) ys = reverse_onto xs (x ∷ ys)

-- A digit's part of the sum, doubled or not.
abbrev pub luhn_digit : Bool → ℕ → ℕ
luhn_digit should_double c =
    let digit = c - 48 in
    if should_double then (if ltb 9 (digit * 2) then digit * 2 - 9 else digit * 2) else digit

-- The loop of `luhnCheck`, over the digits from the last to the first.
pub luhn_loop : Text → ℕ → Bool → ℕ
luhn_loop [] sum should_double = sum
luhn_loop (c ∷ cs) sum should_double =
    luhn_loop cs (sum + luhn_digit should_double c) (not should_double)

-- `luhnCheck`, the same in the backend and in the frontend.
unfoldable pub luhn_check : Text → Bool
unfolding luhn_loop
luhn_check digits = luhn_loop (reverse_onto digits []) 0 false % 10 == 0

-- `IsLuhnValidConstraint.validate`, of a string: `/^\d+$/` and the check.
unfoldable pub is_luhn_valid : Text → Bool
is_luhn_valid [] = false
is_luhn_valid (c ∷ cs) = all_digits (c ∷ cs) && luhn_check (c ∷ cs)

abbrev is_upper : ℕ → Bool
is_upper c = leb 65 c && leb c 90

abbrev is_lower : ℕ → Bool
is_lower c = leb 97 c && leb c 122

abbrev is_symbol : ℕ → Bool
is_symbol c = not (is_upper c || is_lower c || is_digit c)

abbrev one_if : Bool → ℕ
one_if true = 1
one_if false = 0

-- How many of `COMPLEXITY_PATTERNS` match.
unfoldable pub complexity_count : Text → ℕ
complexity_count value =
    one_if (any is_upper value)
    + one_if (any is_lower value)
    + one_if (any is_digit value)
    + one_if (any is_symbol value)

-- `IsPasswordComplexConstraint.validate`, of a string.
unfoldable pub is_password_complex : Text → Bool
unfolding complexity_count
is_password_complex value = leb 3 (complexity_count value)

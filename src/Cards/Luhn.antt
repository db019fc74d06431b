-- ===== src/Cards/Luhn.antt =====
-- The check of a card number against a single wrong digit.
use smart_parking_management.Prelude.{
  ℕ, ◌+◌, ◌%◌, Bool, true, false, not, ◌≡◌, ◌≢◌, refl, ap, ◌∙◌, [], ◌∷◌, ◌++◌, arith,
}
use smart_parking_management.Schema.{Text}
use smart_parking_management.Cards.{is_digit, reverse_onto, luhn_digit, luhn_loop, luhn_check}

-- One digit counts once in the sum, doubled or not, and the others count the same.
luhn_loop_one :
    (before after : Text) (sum : ℕ) (double : Bool)
    → (rest : ℕ) × (doubled : Bool) × ((c : ℕ)
        → luhn_loop (before ++ c ∷ after) sum double ≡ rest + luhn_digit doubled c)
unfolding luhn_loop
luhn_loop_one [] after sum double =
    let (rest, adds) = luhn_loop_sum after (not double) in
    (rest + sum, double, λ c. omega (arith, adds (sum + luhn_digit double c)))
  where
    luhn_loop_sum : (cs : Text) (d : Bool) → (rest : ℕ) × ((s : ℕ) → luhn_loop cs s d ≡ rest + s)
    luhn_loop_sum [] d = (0, λ s. omega arith)
    luhn_loop_sum (c ∷ cs) d =
        let (rest, adds) = luhn_loop_sum cs (not d) in
        (rest + luhn_digit d c, λ s. omega (arith, adds (s + luhn_digit d c)))
luhn_loop_one (b ∷ before) after sum double =
    luhn_loop_one before after (sum + luhn_digit double b) (not double)

reverse_onto-append : (xs ys zs : Text) → reverse_onto xs (ys ++ zs) ≡ reverse_onto xs ys ++ zs
reverse_onto-append [] ys zs = refl
reverse_onto-append (x ∷ xs) ys zs = reverse_onto-append xs (x ∷ ys) zs

reverse_onto_one :
    (before : Text) (c : ℕ) (after ys : Text)
    → reverse_onto (before ++ c ∷ after) ys ≡ reverse_onto after [] ++ c ∷ reverse_onto before ys
reverse_onto_one [] c after ys = reverse_onto-append after [] (c ∷ ys)
reverse_onto_one (b ∷ before) c after ys = reverse_onto_one before c after (b ∷ ys)

digits_apart :
    (doubled : Bool) (rest c d : ℕ)
    → is_digit c ≡ true
    → is_digit d ≡ true
    → c ≢ d
    → (rest + luhn_digit doubled c) % 10 ≡ 0
    → (rest + luhn_digit doubled d) % 10 ≢ 0
digits_apart doubled rest c d hc hd ne e f = ground (arith, hc, hd, ne, e, f)

-- A card number with one wrong digit is not valid: if a number passes, none that differs from it in
-- exactly one digit does.
pub luhn_check_one_digit :
    (before after : Text) (c d : ℕ)
    → is_digit c ≡ true
    → is_digit d ≡ true
    → c ≢ d
    → luhn_check (before ++ c ∷ after) ≡ true
    → luhn_check (before ++ d ∷ after) ≡ false
unfolding luhn_check
luhn_check_one_digit before after c d hc hd ne h =
    let (rest, doubled, adds) =
      luhn_loop_one (reverse_onto after []) (reverse_onto before []) 0 false in
    let sum_c = ap (λ t. luhn_loop t 0 false) (reverse_onto_one before c after []) ∙ adds c in
    let sum_d = ap (λ t. luhn_loop t 0 false) (reverse_onto_one before d after []) ∙ adds d in
    let apart = digits_apart doubled rest c d hc hd ne in ground (arith, sum_c, sum_d, apart, h)

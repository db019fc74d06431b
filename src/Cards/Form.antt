-- ===== src/Cards/Form.antt =====
-- The card form: frontend/src/lib/card-form.ts.
use smart_parking_management.Prelude.{
  ℕ, zero, suc, ◌+◌, ◌-◌, ◌*◌, ◌≡◌, ◌<◌, Bool, true, refl, [], ◌∷◌, find_many, All, ap, ◌∙◌,
  Bool-cases, inl, inr, ltb, arith,
}
use smart_parking_management.Schema.{Text}
use smart_parking_management.Cards.{is_digit}

-- `value.replace(/\D/g, "")`
abbrev pub digits_of : Text → Text
digits_of = find_many is_digit

-- `slice(0, n)`
abbrev pub first_of : ℕ → Text → Text
first_of zero text = []
first_of (suc n) [] = []
first_of (suc n) (c ∷ cs) = c ∷ first_of n cs

-- `(digits.match(/.{1,4}/g) ?? []).join(" ")`
pub groups_of_four : Text → Text
groups_of_four (a ∷ b ∷ c ∷ d ∷ e ∷ rest) = a ∷ b ∷ c ∷ d ∷ 32 ∷ groups_of_four (e ∷ rest)
groups_of_four (a ∷ b ∷ c ∷ d ∷ []) = a ∷ b ∷ c ∷ d ∷ []
groups_of_four (a ∷ b ∷ c ∷ []) = a ∷ b ∷ c ∷ []
groups_of_four (a ∷ b ∷ []) = a ∷ b ∷ []
groups_of_four (a ∷ []) = a ∷ []
groups_of_four [] = []

unfoldable pub format_card_number : Text → Text
unfolding groups_of_four
format_card_number value = groups_of_four (first_of 16 (digits_of value))

abbrev slashed : Text → Text
slashed (a ∷ b ∷ c ∷ rest) = a ∷ b ∷ 47 ∷ c ∷ rest
slashed (a ∷ b ∷ []) = a ∷ b ∷ []
slashed (a ∷ []) = a ∷ []
slashed [] = []

unfoldable pub format_expiry : Text → Text
format_expiry value = slashed (first_of 4 (digits_of value))

pub record Expiry : Type 0 where
  pub month : ℕ
  pub year : ℕ

-- `parseExpiry`, of a text MM/YY.
abbrev pub parse_expiry : ℕ → ℕ → ℕ → ℕ → Expiry
parse_expiry m1 m2 y1 y2 = record {
  month = (m1 - 48) * 10 + (m2 - 48);
  year = 2000 + ((y1 - 48) * 10 + (y2 - 48));
}

-- The month that the form takes a card to end with: `new Date(2000 + year, month, 1)`, as a number of
-- months.
abbrev pub expires_at_month : Expiry → ℕ
expires_at_month e = (2000 + e.year) * 12 + e.month

-- The last check of `expiryField`: whether the card is good in a month of a year, the first month
-- being 0.
unfoldable pub is_not_expired : Expiry → ℕ → ℕ → Bool
is_not_expired e year month = ltb (year * 12 + month) (expires_at_month e)

digits_of-groups :
    (ds : Text) → All (λ c. is_digit c ≡ true) ds → digits_of (groups_of_four ds) ≡ ds
unfolding groups_of_four
digits_of-groups (a ∷ b ∷ c ∷ d ∷ e ∷ rest) (ha, (hb, (hc, (hd, h)))) =
    rw (ha, hb, hc, hd) (ap (λ t. a ∷ b ∷ c ∷ d ∷ t) (digits_of-groups (e ∷ rest) h))
digits_of-groups (a ∷ b ∷ c ∷ d ∷ []) (ha, (hb, (hc, (hd, _)))) = rw (ha, hb, hc, hd) refl
digits_of-groups (a ∷ b ∷ c ∷ []) (ha, (hb, (hc, _))) = rw (ha, hb, hc) refl
digits_of-groups (a ∷ b ∷ []) (ha, (hb, _)) = rw (ha, hb) refl
digits_of-groups (a ∷ []) (ha, _) = rw ha refl
digits_of-groups [] _ = refl

All-digits_of : (t : Text) → All (λ c. is_digit c ≡ true) (digits_of t)
All-digits_of [] = tt
All-digits_of (c ∷ cs) = elim (Bool-cases (is_digit c)) [
  | inl digit ↦ rw digit (digit, All-digits_of cs)
  | inr other ↦ rw other (All-digits_of cs)
]

All-first_of :
    (n : ℕ) (t : Text)
    → All (λ c. is_digit c ≡ true) t
    → All (λ c. is_digit c ≡ true) (first_of n t)
All-first_of zero t h = tt
All-first_of (suc n) [] h = tt
All-first_of (suc n) (c ∷ cs) h = (h.0, All-first_of n cs h.1)

first_of_again : (n : ℕ) (t : Text) → first_of n (first_of n t) ≡ first_of n t
first_of_again zero t = refl
first_of_again (suc n) [] = refl
first_of_again (suc n) (c ∷ cs) = ap (c ∷◌) (first_of_again n cs)

-- What the form shows of a card number has exactly the first sixteen digits that were typed, in their
-- order, and formatting it again at the next key leaves it as it is.
pub format_card_number_lem :
    (value : Text)
    → (digits_of (format_card_number value) ≡ first_of 16 (digits_of value))
      × (format_card_number (format_card_number value) ≡ format_card_number value)
unfolding format_card_number
format_card_number_lem value =
    let ds = first_of 16 (digits_of value) in
    let same = digits_of-groups ds (All-first_of 16 (digits_of value) (All-digits_of value)) in
    (
      same,
      ap (λ t. groups_of_four (first_of 16 t)) same
          ∙ ap groups_of_four (first_of_again 16 (digits_of value)),
    )

-- Every card passes the check of the expiry in every year before 4000, whatever month and year stand on
-- it.
pub is_not_expired_ever :
    (m1 m2 y1 y2 year month : ℕ)
    → year < 4000
    → month < 12
    → is_not_expired (parse_expiry m1 m2 y1 y2) year month ≡ true
unfolding is_not_expired
is_not_expired_ever m1 m2 y1 y2 year month h k = ground (arith, h, k)

-- ===== src/Tests/People.antt =====
-- Runs of UsersService: a customer is blocked, changes a profile and a password, and saves a card.
use smart_parking_management.Prelude.{
  ◌≡◌, refl, true, false, none, some, [], ◌∷◌, map, arith, ℕ, Bool,
}
use smart_parking_management.Schema.{Text, Db}
use smart_parking_management.Action.{ok}
use smart_parking_management.Sweeps.{swept}
use smart_parking_management.Tables.{same_text}
use smart_parking_management.Users.{
  UpdateProfileDto, ChangePasswordDto, SavePaymentMethodDto, set_blocked, is_awaited_of, block,
}
use smart_parking_management.Users.Blocking.{block-swept}
use smart_parking_management.Tests.Data.{customer_7, opening_db, booked_db, booking}

block-swept_example :
    ((block 7 9 booked_db).0 ≡ ok (set_blocked true customer_7))
    × ((block 7 9 booked_db).1.reservations ≡ map (swept (is_awaited_of 7)) (booking ∷ []))
block-swept_example = block-swept 7 9 booked_db customer_7 (λ e. omega arith) refl (tt, tt)

abbrev new_email : UpdateProfileDto
new_email = record { first_name = none; last_name = none; email = some (b'z' ∷ []) }

-- A stand-in for a hash: the password with the salt in front.
abbrev salted : Text → ℕ → Text
salted password salt = salt ∷ password

abbrev matches_salted : Text → Text → Bool
matches_salted password [] = false
matches_salted password (salt ∷ rest) = same_text password rest

same_text_refl : (s : Text) → same_text s s ≡ true
same_text_refl [] = refl
same_text_refl (c ∷ s) = ground (arith, same_text_refl s)

abbrev with_hash : Db
with_hash = record opening_db { users = record customer_7 { password = 3 ∷ b'p' ∷ [] } ∷ [] }

abbrev change : Text → Text → ChangePasswordDto
change current new = record { current_password = current; new_password = new }

abbrev declined_card : SavePaymentMethodDto
declined_card = record {
  cardholder_name = b'A' ∷ [];
  card_number = b'4' ∷ b'0' ∷ b'0' ∷ b'0' ∷ b'0' ∷ [];
  expiry_month = 12;
  expiry_year = 2030;
}

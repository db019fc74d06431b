-- ===== src/Tests/Accounts.antt =====
-- Runs of accounts and cards: a blocked user logs in, a customer deletes the account, and cards are
-- checked.
use smart_parking_management.Prelude.{◌≡◌, refl, true, false, [], ◌∷◌, any, ◌==◌, arith}
use smart_parking_management.Schema.{Db}
use smart_parking_management.Action.{ok, err, Error}
use smart_parking_management.Users.{block}
use smart_parking_management.Users.Deletion.{remove_self}
use smart_parking_management.Users.Links.{remove_self_strands_slots}
use smart_parking_management.Auth.{login}
use smart_parking_management.Auth.Accounts.{block-login}
use smart_parking_management.Cards.{luhn_check}
use smart_parking_management.Cards.Luhn.{luhn_check_one_digit}
use smart_parking_management.Cards.Form.{is_not_expired, parse_expiry, is_not_expired_ever}
use smart_parking_management.Tests.Data.{customer_7, opening_db, booked_db, salted, matches_salted}

abbrev with_password : Db
with_password = record opening_db { users = record customer_7 { password = 3 ∷ b'p' ∷ [] } ∷ [] }

block-login_example :
    let db' = record (block 7 9 with_password).1 { slots = [] } in
    login salted matches_salted (record { email = customer_7.email; password = b'p' ∷ [] }) db'
    ≡ (err Error.account_blocked, db')
block-login_example =
    block-login salted matches_salted (record { email = customer_7.email; password = b'p' ∷ [] }) 9
      with_password (record (block 7 9 with_password).1 { slots = [] })
      (record customer_7 { password = 3 ∷ b'p' ∷ [] }) (λ e. omega arith) refl refl refl tt refl

remove_self_strands_slots_example :
    ((remove_self 7 booked_db).0 ≡ ok tt)
    × ((remove_self 7 booked_db).1.slots ≡ booked_db.slots)
    × (any (λ r. r.user_id == 7) (remove_self 7 booked_db).1.reservations ≡ false)
remove_self_strands_slots_example = remove_self_strands_slots 7 booked_db customer_7 refl refl

-- 18 passes, and 28 does not.
luhn_check_one_digit_example : luhn_check (b'2' ∷ b'8' ∷ []) ≡ false
unfolding luhn_check
luhn_check_one_digit_example =
    luhn_check_one_digit [] (b'8' ∷ []) b'1' b'2' refl refl (λ e. omega arith) refl

-- A card that ended with January 2020, in December 2026.
is_not_expired_ever_example : is_not_expired (parse_expiry b'0' b'1' b'2' b'0') 2026 11 ≡ true
is_not_expired_ever_example =
    is_not_expired_ever b'0' b'1' b'2' b'0' 2026 11 (omega arith) (omega arith)

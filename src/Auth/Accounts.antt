-- ===== src/Auth/Accounts.antt =====
-- The accounts of `AuthService`, with the other services that change them: users.service.ts
-- blocks an account and changes its password.
use smart_parking_management.Prelude.{
  ℕ, Bool, true, false, ◌≡◌, ◌≢◌, refl, some, none, List, [], ◌∷◌, arith, find_first, update_many,
  ◌==◌, ◌∙◌,
}
use smart_parking_management.Schema.{Db, Text, User}
use smart_parking_management.Action.{ok, err, Error}
use smart_parking_management.Tables.{same_text}
use smart_parking_management.Lifecycle.{Distinct}
use smart_parking_management.Users.Blocking.{block-users}
use smart_parking_management.Users.{find_user, set_blocked, block}
use smart_parking_management.Auth.{
  RegisterDto, LoginDto, find_by_email, registered_row, build_auth_response, has_card, register,
  login,
}

same_text_refl : (s : Text) → same_text s s ≡ true
same_text_refl [] = refl
same_text_refl (c ∷ s) = ground (arith, same_text_refl s)

module _ (hash : Text → ℕ → Text) (compare : Text → Text → Bool) where
  -- A registration with an email that nobody has creates a customer, and the same password logs the
  -- account in at once, as the same user; an email that somebody has is refused and changes nothing. The
  -- comparison is to accept the hash of a password.
  pub register-login :
      (dto : RegisterDto) (id salt : ℕ) (db : Db)
      → ((p : Text) (s : ℕ) → compare p (hash p s) ≡ true)
      → find_by_email dto.email db ≡ none
      → let db' = (register hash compare dto id salt db).1 in
        let user = registered_row dto id (hash dto.password salt) in
        ((register hash compare dto id salt db).0 ≡ ok (build_auth_response user false))
        × (login hash compare (record { email = dto.email; password = dto.password }) db'
            ≡ (ok (build_auth_response user (has_card id db)), db'))
        × (register hash compare dto id salt db' ≡ (err Error.email_taken, db'))
  unfolding register login
  register-login dto id salt db accepts free =
      let same = same_text_refl dto.email in let right = accepts dto.password salt in ground arith

  login_run :
      (dto : LoginDto) (db : Db) (u : User)
      → find_by_email dto.email db ≡ some u
      → u.is_blocked ≡ true
      → compare dto.password u.password ≡ true
      → login hash compare dto db ≡ (err Error.account_blocked, db)
  unfolding login
  login_run dto db u e blocked right = ground arith

find_by_email-blocked :
    (email : Text) (id : ℕ) (us : List User) {u : User}
    → find_first (λ x. same_text x.email email) us ≡ some u
    → u.id ≡ id
    → find_first
        (λ x. same_text x.email email)
        (update_many (λ x. x.id == id) (set_blocked true) us)
      ≡ some (set_blocked true u)
find_by_email-blocked email id [] e same = cc
find_by_email-blocked email id (x ∷ xs) {u} e same =
    ground (arith, find_by_email-blocked email id xs {u = u})

-- A user who was blocked is refused at login, with the right password too, if the reservations had
-- distinct ids: in any later database, whatever else has changed in it, in which the email still leads to
-- the row that the blocking left; and the refused login changes nothing.
pub block-login :
    (hash : Text → ℕ → Text) (compare : Text → Text → Bool) (dto : LoginDto) (requester : ℕ)
    (db then_db : Db) (u : User)
    → u.id ≢ requester
    → find_user u.id db ≡ some u
    → find_by_email dto.email db ≡ some u
    → compare dto.password u.password ≡ true
    → Distinct db.reservations
    → find_by_email dto.email then_db ≡ find_by_email dto.email (block u.id requester db).1
    → login hash compare dto then_db ≡ (err Error.account_blocked, then_db)
block-login hash compare dto requester db then_db u ne e by_email right d same =
    let users = block-users u.id requester db u ne e d in
    let row : find_by_email dto.email (block u.id requester db).1 ≡ some (set_blocked true u) =
      rw users (find_by_email-blocked dto.email u.id db.users by_email refl) in
    login_run hash compare dto then_db (set_blocked true u) (same ∙ row) refl right

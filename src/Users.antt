-- ===== src/Users.antt =====
-- backend/src/modules/users/users.service.ts: profiles, blocking, staff accounts, passwords and
-- payment methods. The calls return the user's row; the response leaves out the password. Hashing a
-- password is the work of a library, bcrypt, and a parameter.
pub mod Blocking
pub mod Emails
pub mod Accounts
pub mod Deletion
pub mod Links
use smart_parking_management.Prelude.{
  ℕ, Bool, true, false, not, ◌&&◌, ◌||◌, Option, none, some, List, [], ◌∷◌, find_first, find_many,
  update_many, any, length, leb, ◌==◌, if◌then◌else◌,
}
use smart_parking_management.Schema.{Db, Text, User, PaymentMethod, Reservation}
use smart_parking_management.Schema.Status.{
  Role, SlotStatus, ReservationStatus, QrCodeType, AuditAction, CardBrand, is_confirmed,
  is_reserved, is_manager, is_staff,
}
use smart_parking_management.Action.{
  Action, Error, pure, gets, or_throw, throw_if, modify, transaction, for_each, ◌>>=◌, ◌>>◌,
}
use smart_parking_management.Services.{log}
use smart_parking_management.Tables.{
  same_text, find_reservation, move_slot, set_reservation_status, close_codes, expire_code,
}

abbrev pub find_user : ℕ → Db → Option User
find_user id db = find_first (λ u. u.id == id) db.users

-- `user.update({ where: { id }, data })`, which returns the row that it has written.
abbrev pub update_user : ℕ → (User → User) → Action User
update_user id f = do
  user ← or_throw (← gets (find_user id)) Error.record_missing
  modify (λ db. record db { users = update_many (λ u. u.id == id) f db.users })
  pure (f user)

-- `UsersService.findAll`, less the order by time.
abbrev pub find_all_users : Action (List User)
find_all_users = gets (λ db. db.users)

-- `UsersService.findOne`
abbrev pub find_one_user : ℕ → Action User
find_one_user id = do or_throw (← gets (find_user id)) Error.user_not_found

pub record UpdateProfileDto : Type 0 where
  pub first_name : Option Text
  pub last_name : Option Text
  pub email : Option Text

-- A field of the `data` of the update: one that is undefined is left as it was.
abbrev pub or_kept : Option Text → Text → Text
or_kept none old = old
or_kept (some new) old = new

abbrev pub updated_profile : UpdateProfileDto → User → User
updated_profile dto u = record u {
  first_name = or_kept dto.first_name u.first_name;
  last_name = or_kept dto.last_name u.last_name;
  email = or_kept dto.email u.email;
}

-- `where: { email: dto.email, NOT: { id: userId } }`
abbrev pub has_email_of_other : Text → ℕ → User → Bool
has_email_of_other email user_id u = same_text u.email email && not (u.id == user_id)

-- `if (dto.email)`: whether an email is given, and not the empty one.
abbrev pub is_given : Option Text → Bool
is_given none = false
is_given (some []) = false
is_given (some (_ ∷ _)) = true

abbrev pub is_taken : Option Text → ℕ → Db → Bool
is_taken none user_id db = false
is_taken (some email) user_id db = any (has_email_of_other email user_id) db.users

-- `UsersService.updateProfile`
unfoldable pub update_profile : ℕ → UpdateProfileDto → Role → Action User
update_profile user_id dto requesting_role = do
  throw_if (is_given dto.email && is_manager requesting_role) Error.manager_email_locked
  taken ← gets (is_taken dto.email user_id)
  throw_if (is_given dto.email && taken) Error.email_taken
  user ← update_user user_id (updated_profile dto)
  log user_id AuditAction.profile_updated (some user_id)
  pure user

-- `UsersService.adminUpdateProfile`
unfoldable pub admin_update_profile : ℕ → UpdateProfileDto → ℕ → Action User
admin_update_profile user_id dto requesting_user_id = do
  find_one_user user_id
  taken ← gets (is_taken dto.email user_id)
  throw_if (is_given dto.email && taken) Error.email_taken
  user ← update_user user_id (updated_profile dto)
  log user_id AuditAction.profile_updated_by_admin (some requesting_user_id)
  pure user

-- The confirmed reservations of a user, which blocking cancels.
abbrev pub is_awaited_of : ℕ → Reservation → Bool
is_awaited_of user_id r = r.user_id == user_id && is_confirmed r.status

-- The body of the loop of `block`.
unfoldable pub cancel_of_blocked : Reservation → Action (Unit {0})
cancel_of_blocked reservation = do
  or_throw (← gets (find_reservation reservation.id)) Error.record_missing
  modify (set_reservation_status reservation.id ReservationStatus.cancelled)
  modify (move_slot reservation.slot_id is_reserved SlotStatus.available)
  modify (close_codes reservation.id QrCodeType.check_in expire_code)

-- `user.update({ where: { id }, data: { isBlocked } })`
abbrev pub set_blocked : Bool → User → User
set_blocked blocked u = record u { is_blocked = blocked }

-- The transaction of `block`.
pub block_writes : ℕ → ℕ → Action (Unit {0})
unfolding cancel_of_blocked for_each
block_writes id requesting_user_id = do
  update_user id (set_blocked true)
  active_reservations ← gets (λ db. find_many (is_awaited_of id) db.reservations)
  for_each cancel_of_blocked active_reservations
  log id AuditAction.user_blocked (some requesting_user_id)

-- `UsersService.block`
unfoldable pub block : ℕ → ℕ → Action User
unfolding block_writes
block id requesting_user_id = do
  throw_if (id == requesting_user_id) Error.own_account
  find_one_user id
  transaction (block_writes id requesting_user_id)
  find_one_user id

-- `UsersService.unblock`
unfoldable pub unblock : ℕ → ℕ → Action User
unblock id requesting_user_id = do
  find_one_user id
  update_user id (set_blocked false)
  log id AuditAction.user_unblocked (some requesting_user_id)
  find_one_user id

-- `UsersService.updateStaffRole`
unfoldable pub update_staff_role : ℕ → Role → ℕ → Action User
update_staff_role id role requesting_user_id = do
  throw_if (id == requesting_user_id) Error.own_account
  target ← find_one_user id
  throw_if (not (is_staff target.role)) Error.not_staff
  user ← update_user id (λ u. record u { role = role })
  log id AuditAction.role_changed (some requesting_user_id)
  pure user

pub record CreateStaffDto : Type 0 where
  pub email : Text
  pub password : Text
  pub first_name : Text
  pub last_name : Text
  pub role : Role

-- The row of a new staff account; the id comes from `@default(uuid())`.
abbrev pub staff_row : CreateStaffDto → ℕ → Text → User
staff_row dto id password_hash = record {
  id = id;
  email = dto.email;
  password = password_hash;
  first_name = dto.first_name;
  last_name = dto.last_name;
  role = dto.role;
  is_blocked = false;
}

pub record ChangePasswordDto : Type 0 where
  pub current_password : Text
  pub new_password : Text

-- `bcrypt.hash(password, SALT_ROUNDS)`, with the salt that it draws, and `bcrypt.compare`.
module _ (hash : Text → ℕ → Text) (compare : Text → Text → Bool) where
  -- `UsersService.createStaff`
  unfoldable pub create_staff : CreateStaffDto → ℕ → ℕ → ℕ → Action User
  create_staff dto id salt created_by = do
    existing ← gets (λ db. any (λ u. same_text u.email dto.email) db.users)
    throw_if existing Error.email_taken
    let user = staff_row dto id (hash dto.password salt)
    modify (λ db. record db { users = user ∷ db.users })
    log id AuditAction.staff_created_by_admin (some created_by)
    pure user

  -- `UsersService.changePassword`
  unfoldable pub change_password : ℕ → ChangePasswordDto → ℕ → Action (Unit {0})
  change_password user_id dto salt = do
    user ← or_throw (← gets (find_user user_id)) Error.user_not_found
    throw_if (not (compare dto.current_password user.password)) Error.wrong_password
    update_user user_id (λ u. record u { password = hash dto.new_password salt })
    log user_id AuditAction.password_changed (some user_id)

-- `detectCardBrand`
abbrev pub detect_card_brand : Text → CardBrand
detect_card_brand [] = CardBrand.card
detect_card_brand (c ∷ _) =
    if c == b'4' then CardBrand.visa else if c == b'5' then CardBrand.mastercard else CardBrand.card

-- `cardNumber.slice(-4)`
pub last_four : Text → Text
last_four [] = []
last_four (c ∷ cs) = let rest = last_four cs in if leb (length cs) 3 then c ∷ cs else rest

pub record SavePaymentMethodDto : Type 0 where
  pub cardholder_name : Text
  pub card_number : Text
  pub expiry_month : ℕ
  pub expiry_year : ℕ

abbrev pub card_row : ℕ → SavePaymentMethodDto → PaymentMethod
card_row user_id dto = record {
  user_id = user_id;
  cardholder_name = dto.cardholder_name;
  brand = detect_card_brand dto.card_number;
  last4 = last_four dto.card_number;
  expiry_month = dto.expiry_month;
  expiry_year = dto.expiry_year;
}

-- `paymentMethod.upsert({ where: { userId }, create, update })`: both write the same columns.
pub upsert_card : PaymentMethod → List PaymentMethod → List PaymentMethod
upsert_card new [] = new ∷ []
upsert_card new (m ∷ ms) =
    let rest = upsert_card new ms in if m.user_id == new.user_id then new ∷ ms else m ∷ rest

-- `UsersService.savePaymentMethod`
unfoldable pub save_payment_method : ℕ → SavePaymentMethodDto → Action PaymentMethod
unfolding upsert_card
save_payment_method user_id dto = do
  let method = card_row user_id dto
  modify (λ db. record db { payment_methods = upsert_card method db.payment_methods })
  log user_id AuditAction.payment_method_saved (some user_id)
  pure method

-- `UsersService.getPaymentMethod`
unfoldable pub get_payment_method : ℕ → Action PaymentMethod
get_payment_method user_id = do
  or_throw (← gets (λ db. find_first (λ m. m.user_id == user_id) db.payment_methods))
      Error.no_payment_method

-- ===== src/Auth.antt =====
-- backend/src/modules/auth/auth.service.ts, the roles guard of
-- backend/src/modules/auth/guards/roles.guard.ts, and `validate` of the JWT strategy. Signing a token
-- is the work of a library; what is signed is the payload, which stands for the token here.
pub mod Accounts
use smart_parking_management.Prelude.{
  ℕ, Bool, true, false, not, ◌&&◌, ◌||◌, Option, none, some, List, [], ◌∷◌, find_first, any, ◌==◌,
  if◌then◌else◌,
}
use smart_parking_management.Schema.{Db, Text, User}
use smart_parking_management.Schema.Status.{Role, same_role}
use smart_parking_management.Action.{
  Action, Error, pure, gets, or_throw, throw_if, modify, ◌>>=◌, ◌>>◌,
}
use smart_parking_management.Environment.{AuthenticatedUser}
use smart_parking_management.Tables.{same_text}

pub record RegisterDto : Type 0 where
  pub email : Text
  pub password : Text
  pub first_name : Text
  pub last_name : Text

pub record LoginDto : Type 0 where
  pub email : Text
  pub password : Text

-- What a token says.
pub record JwtPayload : Type 0 where
  pub sub : ℕ
  pub email : Text
  pub role : Role

pub record AuthResponse : Type 0 where
  pub payload : JwtPayload
  pub first_name : Text
  pub last_name : Text
  pub has_payment_method : Bool

-- `buildAuthResponse`
abbrev pub build_auth_response : User → Bool → AuthResponse
build_auth_response user has_payment_method = record {
  payload = record { sub = user.id; email = user.email; role = user.role };
  first_name = user.first_name;
  last_name = user.last_name;
  has_payment_method = has_payment_method;
}

-- `user.findUnique({ where: { email } })`
abbrev pub find_by_email : Text → Db → Option User
find_by_email email db = find_first (λ u. same_text u.email email) db.users

abbrev pub is_some : {A : Type 0} → Option A → Bool
is_some none = false
is_some (some _) = true

-- The row of a new account: `role` and `isBlocked` have the defaults of the schema.
abbrev pub registered_row : RegisterDto → ℕ → Text → User
registered_row dto id password_hash = record {
  id = id;
  email = dto.email;
  password = password_hash;
  first_name = dto.first_name;
  last_name = dto.last_name;
  role = Role.customer;
  is_blocked = false;
}

abbrev pub has_card : ℕ → Db → Bool
has_card user_id db = any (λ m. m.user_id == user_id) db.payment_methods

module _ (hash : Text → ℕ → Text) (compare : Text → Text → Bool) where
  -- `AuthService.register`, with the new id and the salt.
  unfoldable pub register : RegisterDto → ℕ → ℕ → Action AuthResponse
  register dto id salt = do
    existing ← gets (find_by_email dto.email)
    throw_if (is_some existing) Error.email_taken
    let user = registered_row dto id (hash dto.password salt)
    modify (λ db. record db { users = user ∷ db.users })
    pure (build_auth_response user false)

  -- `AuthService.login`
  unfoldable pub login : LoginDto → Action AuthResponse
  login dto = do
    user ← or_throw (← gets (find_by_email dto.email)) Error.invalid_credentials
    throw_if (not (compare dto.password user.password)) Error.invalid_credentials
    throw_if user.is_blocked Error.account_blocked
    card ← gets (has_card user.id)
    pure (build_auth_response user card)

-- `JwtStrategy.validate`, of a payload with a subject.
abbrev pub validate : JwtPayload → AuthenticatedUser
validate payload = record { user_id = payload.sub; role = payload.role }

abbrev pub has_role : List Role → Role → Bool
has_role roles role = any (λ r. same_role r role) roles

abbrev allows : List Role → Option AuthenticatedUser → Bool
allows roles none = false
allows roles (some user) = has_role roles user.role

-- `RolesGuard.canActivate`: the roles that the handler or its class asks for, and the request's user.
unfoldable pub can_activate : Option (List Role) → Option AuthenticatedUser → Bool
can_activate none user = true
can_activate (some []) user = true
can_activate (some (r ∷ rs)) user = allows (r ∷ rs) user

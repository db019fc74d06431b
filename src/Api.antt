-- ===== src/Api.antt =====
-- The controllers of backend/src/modules, but for those of auth and assistant: which service method a request calls with what, behind the
-- guards. What the body of a response holds is left out: a request is done or throws.
pub mod Lots
pub mod Slots
pub mod Reservations
pub mod Checkpoint
pub mod Users
pub mod Policies
pub mod Notifications
pub mod Routes
pub mod Guarded
pub mod Customers
use smart_parking_management.Prelude.{
  ℕ, Bool, Option, none, some, List, [], ◌∷◌, not, if◌then◌else◌,
}
use smart_parking_management.Schema.{Db, Text, ParkingLot}
use smart_parking_management.Schema.Status.{Role}
use smart_parking_management.Action.{Action, Error, pure, gets, throw, throw_if, ◌>>=◌, ◌>>◌}
use smart_parking_management.Environment.{Env, Ids, AuthenticatedUser}
use smart_parking_management.Checkpoint.{CodeIds}
use smart_parking_management.Lots.{LotIds}
use smart_parking_management.Lots.Maps.{Coordinates, MatrixResponse}
use smart_parking_management.Auth.{JwtPayload, validate, can_activate}

-- What the services take from outside the code: the clock and the settings, new ids and a salt, and the
-- libraries that they call.
pub record Outside : Type 0 where
  pub env : Env
  pub ids : Ids
  pub code_ids : CodeIds
  pub lot_ids : LotIds
  pub new_id : ℕ
  pub slot_id : Text → ℕ
  pub salt : ℕ
  pub hash : Text → ℕ → Text
  pub compare : Text → Text → Bool
  pub same_name : Text → Text → Bool
  pub distance : ℕ → ℕ → ParkingLot → ℕ
  pub post_matrix : Coordinates → List Coordinates → Option MatrixResponse
  pub similarity : Text → Text → ℕ

abbrev pub done : {A : Type 0} → Action A → Action (Unit {0})
done m = do m; pure tt

-- A list or a search: it reads the tables and is answered.
abbrev pub queried : {A : Type 0} → (Db → A) → Action (Unit {0})
queried f = done (gets f)

abbrev pub answer : Action (Unit {0})
answer = pure tt

abbrev pub staff_only : Option (List Role)
staff_only = some (Role.admin ∷ Role.manager ∷ [])

abbrev pub admin_only : Option (List Role)
admin_only = some (Role.admin ∷ [])

abbrev pub customer_only : Option (List Role)
customer_only = some (Role.customer ∷ [])

-- `JwtAuthGuard` and `RolesGuard`, in this order, and then the handler.
abbrev pub guarded :
    Option JwtPayload
    → Option (List Role)
    → (AuthenticatedUser → Action (Unit {0}))
    → Action (Unit {0})
guarded none roles handler = throw Error.unauthorized
guarded (some payload) roles handler =
    let user = validate payload in
    throw_if (not (can_activate roles (some user))) Error.forbidden >> handler user

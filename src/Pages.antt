-- ===== src/Pages.antt =====
-- Which page the frontend shows to whom: frontend/src/middleware.ts, frontend/src/lib/jwt.ts and
-- frontend/src/components/layout/nav-items.ts. The cookie is what its token decodes to; times are in
-- milliseconds but for `exp`.
pub mod Reachable
use smart_parking_management.Prelude.{
  ℕ, ◌*◌, ◌≤◌, Bool, true, false, not, ◌&&◌, ◌||◌, ◌≡◌, ◌≢◌, refl, Option, none, some, List, [],
  ◌∷◌, any, find_many, ltb, ◌==◌, if◌then◌else◌, arith,
}
use smart_parking_management.Schema.{Text}
use smart_parking_management.Schema.Status.{Role, same_role, is_customer}
use smart_parking_management.Tables.{same_text}

pub record DecodedToken : Type 0 where
  pub role : Role
  pub exp : ℕ

-- `isTokenExpired`, of what the token decodes to.
abbrev pub is_token_expired : Option DecodedToken → ℕ → Bool
is_token_expired none now = true
is_token_expired (some decoded) now = ltb (decoded.exp * 1000) now

abbrev pub login_path : Text
login_path = (b'/' ∷ b'l' ∷ b'o' ∷ b'g' ∷ b'i' ∷ b'n' ∷ [])

abbrev pub register_path : Text
register_path = (b'/' ∷ b'r' ∷ b'e' ∷ b'g' ∷ b'i' ∷ b's' ∷ b't' ∷ b'e' ∷ b'r' ∷ [])

abbrev pub admin_path : Text
admin_path = (b'/' ∷ b'a' ∷ b'd' ∷ b'm' ∷ b'i' ∷ b'n' ∷ [])

abbrev pub admin_users_path : Text
admin_users_path =
    (b'/' ∷ b'a' ∷ b'd' ∷ b'm' ∷ b'i' ∷ b'n' ∷ b'/' ∷ b'u' ∷ b's' ∷ b'e' ∷ b'r' ∷ b's' ∷ [])

abbrev pub checkpoint_path : Text
checkpoint_path = (b'/' ∷ b'c' ∷ b'h' ∷ b'e' ∷ b'c' ∷ b'k' ∷ b'p' ∷ b'o' ∷ b'i' ∷ b'n' ∷ b't' ∷ [])

abbrev pub nearby_path : Text
nearby_path = (b'/' ∷ b'n' ∷ b'e' ∷ b'a' ∷ b'r' ∷ b'b' ∷ b'y' ∷ [])

abbrev public_paths : List Text
public_paths = login_path ∷ register_path ∷ []

abbrev staff_only_prefixes : List Text
staff_only_prefixes = admin_path ∷ checkpoint_path ∷ []

abbrev admin_only_prefixes : List Text
admin_only_prefixes = admin_users_path ∷ []

abbrev customer_only_prefixes : List Text
customer_only_prefixes = nearby_path ∷ []

-- `pathname.startsWith(p)`
abbrev pub starts_with : Text → Text → Bool
starts_with [] path = true
starts_with (_ ∷ _) [] = false
starts_with (p ∷ ps) (c ∷ cs) = p == c && starts_with ps cs

abbrev pub under : List Text → Text → Bool
under prefixes path = any (λ p. starts_with p path) prefixes

pub data Response : Type 0 where
  next to_dashboard to_unauthorized : Response
  to_login : Text → Response

abbrev is_admin : Role → Bool
is_admin Role.admin = true
is_admin _ = false

-- The part for those who are logged in.
abbrev pub page_for_role : Text → Role → Response
page_for_role path role =
    if under admin_only_prefixes path && not (is_admin role)
    then Response.to_unauthorized
    else if under staff_only_prefixes path && is_customer role
    then Response.to_unauthorized
    else if under customer_only_prefixes path && not (is_customer role)
    then Response.to_unauthorized
    else Response.next

abbrev pub is_public : Text → Bool
is_public path = any (λ p. same_text p path) public_paths

-- A token that does not decode is an expired one, so the third clause stands for no other case.
abbrev respond : Text → Bool → Option DecodedToken → Response
respond path false token = if is_public path then Response.next else Response.to_login path
respond path true (some decoded) =
    if is_public path then Response.to_dashboard else page_for_role path decoded.role
respond path true none = Response.to_login path

-- `middleware`
unfoldable pub middleware : Text → Option DecodedToken → ℕ → Response
middleware path token now = respond path (not (is_token_expired token now)) token

pub record NavItem : Type 0 where
  pub href : Text
  pub roles : Option (List Role)

abbrev everybody : Text → NavItem
everybody href = record { href = href; roles = none }

abbrev only : List Role → Text → NavItem
only roles href = record { href = href; roles = some roles }

abbrev customers : List Role
customers = Role.customer ∷ []

abbrev staff : List Role
staff = Role.admin ∷ Role.manager ∷ []

abbrev admins : List Role
admins = Role.admin ∷ []

-- `NAV_ITEMS`, less the labels and the icons.
unfoldable pub nav_items : List NavItem
nav_items =
    everybody (b'/' ∷ b'd' ∷ b'a' ∷ b's' ∷ b'h' ∷ b'b' ∷ b'o' ∷ b'a' ∷ b'r' ∷ b'd' ∷ [])
    ∷ only customers nearby_path
    ∷ everybody (
        b'/' ∷ b'p' ∷ b'a' ∷ b'r' ∷ b'k' ∷ b'i' ∷ b'n' ∷ b'g' ∷ b'-' ∷ b'l' ∷ b'o' ∷ b't' ∷ b's'
        ∷ [])
    ∷ only customers (
        b'/' ∷ b'r' ∷ b'e' ∷ b's' ∷ b'e' ∷ b'r' ∷ b'v' ∷ b'a' ∷ b't' ∷ b'i' ∷ b'o' ∷ b'n' ∷ b's'
        ∷ [])
    ∷ only staff (
        b'/' ∷ b'a' ∷ b'd' ∷ b'm' ∷ b'i' ∷ b'n' ∷ b'/' ∷ b'r' ∷ b'e' ∷ b's' ∷ b'e' ∷ b'r' ∷ b'v'
        ∷ b'a' ∷ b't' ∷ b'i' ∷ b'o' ∷ b'n' ∷ b's' ∷ [])
    ∷ only staff checkpoint_path
    ∷ only admins admin_users_path
    ∷ only admins (
        b'/' ∷ b'a' ∷ b'd' ∷ b'm' ∷ b'i' ∷ b'n' ∷ b'/' ∷ b'm' ∷ b'a' ∷ b'n' ∷ b'a' ∷ b'g' ∷ b'e'
        ∷ b'r' ∷ b's' ∷ [])
    ∷ only admins (
        b'/' ∷ b'a' ∷ b'd' ∷ b'm' ∷ b'i' ∷ b'n' ∷ b'/' ∷ b'p' ∷ b'o' ∷ b'l' ∷ b'i' ∷ b'c' ∷ b'i'
        ∷ b'e' ∷ b's' ∷ [])
    ∷ everybody (b'/' ∷ b'p' ∷ b'r' ∷ b'o' ∷ b'f' ∷ b'i' ∷ b'l' ∷ b'e' ∷ [])
    ∷ []

abbrev visible_to : Option (List Role) → Option Role → Bool
visible_to none role = true
visible_to (some roles) none = false
visible_to (some roles) (some r) = any (λ x. same_role x r) roles

-- `!item.roles || (role && item.roles.includes(role))`
abbrev is_visible : Option Role → NavItem → Bool
is_visible role item = visible_to item.roles role

-- `visibleNavItems`
unfoldable pub visible_nav_items : List NavItem → Option Role → List NavItem
visible_nav_items items role = find_many (is_visible role) items

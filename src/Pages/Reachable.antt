-- ===== src/Pages/Reachable.antt =====
-- Who reaches what: the links of the navigation against the pages that open, and the pages of the staff for
-- customers and for those who are not logged in.
use smart_parking_management.Prelude.{
  ℕ, true, false, ◌≡◌, ◌∙◌, refl, none, some, List, [], ◌∷◌, All, if◌then◌else◌, arith,
}
use smart_parking_management.Schema.{Text}
use smart_parking_management.Schema.Status.{Role}
use smart_parking_management.Pages.{
  DecodedToken, Response, is_token_expired, admin_path, starts_with, page_for_role, middleware,
  NavItem, nav_items, visible_nav_items, is_public,
}

abbrev Opens : Role → NavItem → Type 0
Opens role item = (is_public item.href ≡ false) × (page_for_role item.href role ≡ Response.next)

visible-Opens : (role : Role) → All (Opens role) (visible_nav_items nav_items (some role))
unfolding visible_nav_items nav_items
visible-Opens Role.admin = (
  (refl, refl),
  (
    (refl, refl),
    (
      (refl, refl),
      ((refl, refl), ((refl, refl), ((refl, refl), ((refl, refl), ((refl, refl), tt))))),
    ),
  ),
)
visible-Opens Role.manager =
    ((refl, refl), ((refl, refl), ((refl, refl), ((refl, refl), ((refl, refl), tt)))))
visible-Opens Role.customer =
    ((refl, refl), ((refl, refl), ((refl, refl), ((refl, refl), ((refl, refl), tt)))))

module _ (role : Role) (exp now : ℕ) where
  abbrev token : DecodedToken
  token = record { role = role; exp = exp }

  middleware_run :
      (path : Text)
      → is_token_expired (some token) now ≡ false
      → is_public path ≡ false
      → middleware path (some token) now ≡ page_for_role path role
  unfolding middleware
  middleware_run path fresh private = rw (fresh, private) refl

  All-open :
      (items : List NavItem)
      → is_token_expired (some token) now ≡ false
      → All (Opens role) items
      → All (λ item. middleware item.href (some token) now ≡ Response.next) items
  All-open [] fresh h = tt
  All-open (item ∷ items) fresh h =
      (middleware_run item.href fresh h.0.0 ∙ h.0.1, All-open items fresh h.1)

  -- Every link that the navigation shows to a user, of whatever role, leads to a page that opens for that
  -- user, while the token has not expired.
  pub visible_nav_items-open :
      is_token_expired (some token) now ≡ false
      → All
          (λ item. middleware item.href (some token) now ≡ Response.next)
          (visible_nav_items nav_items (some role))
  visible_nav_items-open fresh = All-open _ fresh (visible-Opens role)

admin_not_public : (path : Text) → starts_with admin_path path ≡ true → is_public path ≡ false
admin_not_public [] h = cc
admin_not_public (c ∷ []) h = ground (arith, h)
admin_not_public (c ∷ d ∷ rest) h = ground (arith, h)

-- The pages under /admin open neither to somebody whose token is missing or has expired, who is sent to
-- log in and back, nor to a customer.
pub admin_pages_shut :
    (path : Text) (token : DecodedToken) (now : ℕ)
    → starts_with admin_path path ≡ true
    → (middleware path none now ≡ Response.to_login path)
      × (middleware path (some (record token { role = Role.customer })) now ≡ (
          if is_token_expired (some token) now
          then Response.to_login path
          else Response.to_unauthorized))
unfolding middleware
admin_pages_shut path token now h =
    let private = admin_not_public path h in ground (arith, h, private)

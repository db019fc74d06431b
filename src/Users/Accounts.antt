-- ===== src/Users/Accounts.antt =====
-- Staff roles, passwords and saved cards, in users.service.ts.
use smart_parking_management.Prelude.{
  ℕ, ◌⊎◌, ◌++◌, length, leb, ◌&&◌, sym, Bool, true, false, ◌≡◌, ◌≢◌, refl, some, List, [], ◌∷◌,
  arith, find_first, update_many, ◌==◌, if◌then◌else◌, inl, inr, ==_refl,
}
use smart_parking_management.Schema.{Db, Text, User, PaymentMethod}
use smart_parking_management.Schema.Status.{Role}
use smart_parking_management.Action.{ok, err, Error}
use smart_parking_management.Checkpoint.{is_declined, find_payment_method}
use smart_parking_management.Users.{
  last_four, find_user, update_staff_role, change_password, ChangePasswordDto, SavePaymentMethodDto,
  card_row, upsert_card, save_payment_method, get_payment_method,
}

find_other :
    (k id : ℕ) (f : User → User) (us : List User) {u : User}
    → k ≢ id
    → ((x : User) → (f x).id ≡ x.id)
    → find_first (λ x. x.id == k) us ≡ some u
    → find_first (λ x. x.id == k) (update_many (λ x. x.id == id) f us) ≡ some u
find_other k id f [] ne keeps e = cc
find_other k id f (x ∷ xs) {u} ne keeps e =
    ground (arith, keeps x, find_other k id f xs {u = u} ne keeps)

update_staff_role-rows :
    (id : ℕ) (role : Role) (requester : ℕ) (db : Db)
    → ((update_staff_role id role requester db).1.users ≡ db.users)
      ⊎ ((id ≢ requester)
          × ((update_staff_role id role requester db).1.users
              ≡ update_many (λ u. u.id == id) (λ u. record u { role = role }) db.users))
unfolding update_staff_role
update_staff_role-rows id role requester db = ground arith

-- A change of a staff role, accepted or refused, never changes the requester's own row: the admin who
-- asks for it is still an admin.
pub update_staff_role_keeps :
    (id : ℕ) (role : Role) (requester : ℕ) (db : Db) (u : User)
    → find_user requester db ≡ some u
    → find_user requester (update_staff_role id role requester db).1 ≡ some u
update_staff_role_keeps id role requester db u e =
    elim (update_staff_role-rows id role requester db) [
      | inl same ↦ rw same e
      | inr (ne, rows) ↦ rw rows (
          find_other requester id (λ x. record x { role = role }) db.users (λ h. ne (sym h))
            (λ x. refl) e)
    ]

find_updated :
    (k : ℕ) (f : User → User) (us : List User) {u : User}
    → ((x : User) → (f x).id ≡ x.id)
    → find_first (λ x. x.id == k) us ≡ some u
    → find_first (λ x. x.id == k) (update_many (λ x. x.id == k) f us) ≡ some (f u)
find_updated k f [] keeps e = cc
find_updated k f (x ∷ xs) {u} keeps e = ground (arith, keeps x, find_updated k f xs {u = u} keeps)

module _ (hash : Text → ℕ → Text) (compare : Text → Text → Bool) where
  change_password_run :
      (user_id : ℕ) (dto : ChangePasswordDto) (salt : ℕ) (db : Db) (u : User)
      → find_user user_id db ≡ some u
      → compare dto.current_password u.password ≡ true
      → ((change_password hash compare user_id dto salt db).0 ≡ ok tt)
        × ((change_password hash compare user_id dto salt db).1.users
            ≡ update_many
                (λ x. x.id == user_id)
                (λ x. record x { password = hash dto.new_password salt })
                db.users)
  unfolding change_password
  change_password_run user_id dto salt db u e h = ground arith

  change_password_wrong :
      (user_id : ℕ) (dto : ChangePasswordDto) (salt : ℕ) (db : Db) (u : User)
      → find_user user_id db ≡ some u
      → compare dto.current_password u.password ≡ false
      → change_password hash compare user_id dto salt db ≡ (err Error.wrong_password, db)
  unfolding change_password
  change_password_wrong user_id dto salt db u e h = ground arith

  -- A password that was changed with the right one is the right one from then on: a second change that
  -- gives the new password as the current one is accepted, and one that gives a password that the
  -- comparison rejects is refused and changes nothing. The comparison is to accept the hash of a
  -- password.
  pub change_password_again :
      (user_id : ℕ) (first second wrong : ChangePasswordDto) (salt again : ℕ) (db : Db) (u : User)
      → ((p : Text) (s : ℕ) → compare p (hash p s) ≡ true)
      → find_user user_id db ≡ some u
      → compare first.current_password u.password ≡ true
      → second.current_password ≡ first.new_password
      → compare wrong.current_password (hash first.new_password salt) ≡ false
      → let db' = (change_password hash compare user_id first salt db).1 in
        ((change_password hash compare user_id first salt db).0 ≡ ok tt)
        × ((change_password hash compare user_id second again db').0 ≡ ok tt)
        × (change_password hash compare user_id wrong again db' ≡ (err Error.wrong_password, db'))
  change_password_again user_id first second wrong salt again db u accepts e right same rejects =
      let (done, rows) = change_password_run user_id first salt db u e right in
      let new : User = record u { password = hash first.new_password salt } in
      let found : find_user user_id (change_password hash compare user_id first salt db).1
          ≡ some new =
        rw rows (
          find_updated user_id (λ x. record x { password = hash first.new_password salt }) db.users
            (λ x. refl) e) in
      (
        done,
        (change_password_run user_id second again
            (change_password hash compare user_id first salt db).1 new found
            (rw same (accepts first.new_password salt))).0,
        change_password_wrong user_id wrong again
            (change_password hash compare user_id first salt db).1 new found rejects,
      )

find-upsert_card :
    (k : ℕ) (new : PaymentMethod) (ms : List PaymentMethod)
    → find_first (λ m. m.user_id == k) (upsert_card new ms)
      ≡ (if new.user_id == k then some new else find_first (λ m. m.user_id == k) ms)
unfolding upsert_card
find-upsert_card k new [] = ground arith
find-upsert_card k new (m ∷ ms) = ground (arith, find-upsert_card k new ms)

last_four-append :
    (front : Text) (a b c d : ℕ) → last_four (front ++ (a ∷ b ∷ c ∷ d ∷ [])) ≡ a ∷ b ∷ c ∷ d ∷ []
unfolding last_four
last_four-append [] a b c d = refl
last_four-append (x ∷ xs) a b c d =
    let longer : leb (length (xs ++ (a ∷ b ∷ c ∷ d ∷ []))) 3 ≡ false = four_more xs in
    rw longer (last_four-append xs a b c d)
  where
    four_more : (ys : Text) → leb (length (ys ++ (a ∷ b ∷ c ∷ d ∷ []))) 3 ≡ false
    four_more [] = refl
    four_more (y ∷ ys) = let rest = four_more ys in ground arith

-- A saved card, of four digits or more, is the one that its user reads back and that a check-out
-- finds: it is declined exactly if the number ends in 0000. What another user reads back is as it
-- was.
pub saved_card_charged :
    (user_id other : ℕ) (dto : SavePaymentMethodDto) (front : Text) (a b c d : ℕ) (db : Db)
    → user_id ≢ other
    → dto.card_number ≡ front ++ (a ∷ b ∷ c ∷ d ∷ [])
    → let db' = (save_payment_method user_id dto db).1 in
      ((get_payment_method user_id db').0 ≡ ok (card_row user_id dto))
      × (is_declined (find_payment_method user_id db')
          ≡ (a == b'0' && b == b'0' && c == b'0' && d == b'0'))
      × ((get_payment_method other db').0 ≡ (get_payment_method other db).0)
unfolding save_payment_method get_payment_method
saved_card_charged user_id other dto front a b c d db ne number =
    let mine = find-upsert_card user_id (card_row user_id dto) db.payment_methods in
    let theirs = find-upsert_card other (card_row user_id dto) db.payment_methods in
    let same = ==_refl user_id in
    (
      rw mine (ground arith),
      rw mine (rw same (rw number (rw (last_four-append front a b c d) refl))),
      rw theirs (ground arith),
    )

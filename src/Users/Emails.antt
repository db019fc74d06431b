-- ===== src/Users/Emails.antt =====
-- The emails of the accounts, under the calls of users.service.ts that write them.
use smart_parking_management.Prelude.{
  ℕ, ◌⊎◌, Bool, false, ◌&&◌, ◌≡◌, ◌≢◌, refl, some, none, Option, List, [], ◌∷◌, arith, any, All,
  Pairwise, update_many, ◌==◌, inl, inr, Bool-cases, Option-cases, ==_sound, sym, ◌∙◌,
  if◌then◌else◌,
}
use smart_parking_management.Schema.{Db, Text, User}
use smart_parking_management.Schema.Status.{Role}
use smart_parking_management.Tables.{same_text}
use smart_parking_management.Users.{
  UpdateProfileDto, updated_profile, has_email_of_other, is_given, is_taken, update_profile,
  admin_update_profile, CreateStaffDto, create_staff, staff_row,
}

-- Two users have different ids and different emails.
abbrev pub IsOther : User → User → Type 0
IsOther a b = (a.id ≢ b.id) × (same_text a.email b.email ≡ false)

abbrev pub HasUniqueEmails : List User → Type 0
HasUniqueEmails = Pairwise IsOther

same_text_sym : (s t : Text) → same_text s t ≡ same_text t s
same_text_sym [] [] = refl
same_text_sym [] (_ ∷ _) = refl
same_text_sym (_ ∷ _) [] = refl
same_text_sym (a ∷ s) (b ∷ t) = ground (arith, same_text_sym s t)

IsOther-sym : (a b : User) → IsOther a b → IsOther b a
IsOther-sym a b h = ((λ e. h.0 (sym e)), rw (same_text_sym b.email a.email) h.1)

module _ (id : ℕ) (f : User → User) (keeps_id : (u : User) → (f u).id ≡ u.id) where
  -- The user that is written stays apart from `y`.
  abbrev IsFresh : User → Type 0
  IsFresh y = (u : User) → u.id ≡ id → IsOther u y → same_text (f u).email y.email ≡ false

  IsOther-update :
      (x y : User)
      → IsFresh x
      → IsFresh y
      → IsOther x y
      → IsOther (if x.id == id then f x else x) (if y.id == id then f y else y)
  IsOther-update x y fx fy h = elim (Bool-cases (x.id == id)) [
    | inl x_is ↦ elim (Bool-cases (y.id == id)) [
      | inl y_is ↦ absurd (ground (arith, h.0))
      | inr y_not ↦
          rw (x_is, y_not) ((λ e. h.0 (sym (keeps_id x) ∙ e)), fy x (==_sound x.id id x_is) h)
    ]
    | inr x_not ↦ elim (Bool-cases (y.id == id)) [
      | inl y_is ↦
          rw (x_not, y_is)
            (IsOther-sym (f y) x
              ((λ e. h.0 (sym e ∙ keeps_id y)), fx y (==_sound y.id id y_is) (IsOther-sym x y h)))
      | inr y_not ↦ rw (x_not, y_not) h
    ]
  ]

  All-IsOther-update :
      (x : User) (ys : List User)
      → IsFresh x
      → All IsFresh ys
      → All (IsOther x) ys
      → All (IsOther (if x.id == id then f x else x)) (update_many (λ u. u.id == id) f ys)
  All-IsOther-update x [] fx fs h = tt
  All-IsOther-update x (y ∷ ys) fx fs h =
      (IsOther-update x y fx fs.0 h.0, All-IsOther-update x ys fx fs.1 h.1)

  update-HasUniqueEmails :
      (us : List User)
      → All IsFresh us
      → HasUniqueEmails us
      → HasUniqueEmails (update_many (λ u. u.id == id) f us)
  update-HasUniqueEmails [] fs h = tt
  update-HasUniqueEmails (u ∷ us) fs h =
      (All-IsOther-update u us fs.0 fs.1 h.0, update-HasUniqueEmails us fs.1 h.1)

-- Whether the email that is asked for, if any, is that of another user.
abbrev clashes : Option Text → ℕ → User → Bool
clashes none id y = false
clashes (some email) id y = has_email_of_other email id y

All-clear :
    (asked : Option Text) (id : ℕ) (db : Db)
    → asked ≢ some []
    → (is_given asked && is_taken asked id db) ≡ false
    → All (λ y. clashes asked id y ≡ false) db.users
All-clear none id db ne h = clear db.users
  where
    clear : (us : List User) → All (λ y. clashes none id y ≡ false) us
    clear [] = tt
    clear (u ∷ us) = (refl, clear us)
All-clear (some []) id db ne h = absurd (ne refl)
All-clear (some (c ∷ cs)) id db ne h = clear db.users h
  where
    clear :
        (us : List User)
        → any (has_email_of_other (c ∷ cs) id) us ≡ false
        → All (λ y. clashes (some (c ∷ cs)) id y ≡ false) us
    clear [] e = tt
    clear (u ∷ us) e = (ground arith, clear us (ground arith))

clear-IsFresh :
    (id : ℕ) (dto : UpdateProfileDto) (us : List User)
    → All (λ y. clashes dto.email id y ≡ false) us
    → All (IsFresh id (updated_profile dto) (λ u. refl)) us
clear-IsFresh id dto [] h = tt
clear-IsFresh id dto (y ∷ ys) h = (
  λ u same other. elim (Option-cases dto.email) [
    | inl kept ↦ rw kept other.1
    | inr (email, given) ↦
        let clear = rw given at h.0 in
        rw given (rw (same_text_sym email y.email) (ground (arith, other.0)))
  ],
  clear-IsFresh id dto ys h.1,
)

profile-HasUniqueEmails :
    (id : ℕ) (dto : UpdateProfileDto) (db : Db)
    → dto.email ≢ some []
    → (is_given dto.email && is_taken dto.email id db) ≡ false
    → HasUniqueEmails db.users
    → HasUniqueEmails (update_many (λ u. u.id == id) (updated_profile dto) db.users)
profile-HasUniqueEmails id dto db ne h unique =
    update-HasUniqueEmails id (updated_profile dto) (λ u. refl) db.users
      (clear-IsFresh id dto db.users (All-clear dto.email id db ne h)) unique

module _ (user_id : ℕ) (dto : UpdateProfileDto) (role : Role) (db : Db) where
  update_profile-rows :
      ((update_profile user_id dto role db).1.users ≡ db.users)
      ⊎ (((is_given dto.email && is_taken dto.email user_id db) ≡ false)
          × ((update_profile user_id dto role db).1.users
              ≡ update_many (λ u. u.id == user_id) (updated_profile dto) db.users))
  unfolding update_profile
  update_profile-rows = ground arith

  -- A user's own change of profile, accepted or refused, leaves no two users with one email, if none
  -- had one before and the email that is asked for, if any, is not empty.
  pub update_profile-HasUniqueEmails :
      dto.email ≢ some []
      → HasUniqueEmails db.users
      → HasUniqueEmails (update_profile user_id dto role db).1.users
  update_profile-HasUniqueEmails ne unique = elim update_profile-rows [
    | inl same ↦ rw same unique
    | inr (clear, rows) ↦ rw rows (profile-HasUniqueEmails user_id dto db ne clear unique)
  ]

module _ (user_id : ℕ) (dto : UpdateProfileDto) (requester : ℕ) (db : Db) where
  admin_update_profile-rows :
      ((admin_update_profile user_id dto requester db).1.users ≡ db.users)
      ⊎ (((is_given dto.email && is_taken dto.email user_id db) ≡ false)
          × ((admin_update_profile user_id dto requester db).1.users
              ≡ update_many (λ u. u.id == user_id) (updated_profile dto) db.users))
  unfolding admin_update_profile
  admin_update_profile-rows = ground arith

  -- An admin's change of a user's profile, accepted or refused, leaves no two users with one email, if
  -- none had one before and the email that is asked for, if any, is not empty.
  pub admin_update_profile-HasUniqueEmails :
      dto.email ≢ some []
      → HasUniqueEmails db.users
      → HasUniqueEmails (admin_update_profile user_id dto requester db).1.users
  admin_update_profile-HasUniqueEmails ne unique = elim admin_update_profile-rows [
    | inl same ↦ rw same unique
    | inr (clear, rows) ↦ rw rows (profile-HasUniqueEmails user_id dto db ne clear unique)
  ]

module _ (hash : Text → ℕ → Text) (compare : Text → Text → Bool) (dto : CreateStaffDto)
    (id salt created_by : ℕ) (db : Db) where
  create_staff-rows :
      ((create_staff hash compare dto id salt created_by db).1.users ≡ db.users)
      ⊎ ((any (λ u. same_text u.email dto.email) db.users ≡ false)
          × ((create_staff hash compare dto id salt created_by db).1.users
              ≡ staff_row dto id (hash dto.password salt) ∷ db.users))
  unfolding create_staff
  create_staff-rows = ground arith

  staff-IsOther :
      (us : List User)
      → any (λ u. same_text u.email dto.email) us ≡ false
      → All (λ u. id ≢ u.id) us
      → All (IsOther (staff_row dto id (hash dto.password salt))) us
  staff-IsOther [] h fresh = tt
  staff-IsOther (u ∷ us) h fresh = (
    (fresh.0, rw (same_text_sym dto.email u.email) (ground arith)),
    staff-IsOther us (ground arith) fresh.1,
  )

  -- A new staff account, created or refused, leaves no two users with one email, if none had one before
  -- and the generated id is new.
  pub create_staff-HasUniqueEmails :
      All (λ u. id ≢ u.id) db.users
      → HasUniqueEmails db.users
      → HasUniqueEmails (create_staff hash compare dto id salt created_by db).1.users
  create_staff-HasUniqueEmails fresh unique = elim create_staff-rows [
    | inl same ↦ rw same unique
    | inr (free, rows) ↦ rw rows (staff-IsOther db.users free fresh, unique)
  ]

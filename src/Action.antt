-- ===== src/Action.antt =====
-- What a service method does to the database: it reads and writes the tables and returns a value
-- or throws. What was written before a throw stays written, unless the writes stand in a
-- `prisma.$transaction`, which puts the database back as it was before it passes the error on.
-- That two calls, or two transactions, run one after the other is an assumption of this model: the code
-- locks rows (`FOR UPDATE`) in some transactions, of different tables, and in others it locks none.
use smart_parking_management.Prelude.{
  List, [], ◌∷◌, Bool, Option, none, some, if◌then◌else◌, ◌≡◌, refl, ◌⊎◌, inl, inr,
}
use smart_parking_management.Schema.{Db}

-- The exceptions, one constructor for each place that throws.
pub data Error : Type 0 where
  -- BadRequestException
  arrival_in_past too_far_ahead wrong_qr_type too_early own_account not_staff not_a_manager : Error
  too_many_slots price_required duplicate_floor_number no_text : Error
  -- ForbiddenException
  forbidden access_denied not_owner not_lot_manager manager_email_locked account_blocked : Error
  -- NotFoundException
  slot_not_found reservation_not_found lot_not_found qr_not_recognized user_not_found : Error
  no_payment_method floor_not_found document_not_found : Error
  -- ConflictException
  lot_inactive slot_unavailable not_awaiting_payment not_confirmed : Error
  checkout_already_initiated not_checked_in slot_in_use email_taken : Error
  floor_number_taken floor_in_use still_manages lot_name_taken lot_nearby : Error
  -- GoneException
  qr_used qr_expired : Error
  -- UnauthorizedException
  wrong_password invalid_credentials unauthorized : Error
  -- Prisma's error for an `update` or `findUniqueOrThrow` that meets no row
  record_missing : Error
  -- Prisma's error P2003, for a delete that a foreign key forbids
  foreign_key_violated : Error

pub data Result (A : Type 0) : Type 0 where
  ok : A → Result A
  err : Error → Result A

abbrev pub Action : Type 0 → Type 0
Action A = Db → Result A × Db

module _ {A : Type 0} where
  abbrev pub pure : A → Action A
  pure a db = (ok a, db)

  abbrev pub throw : Error → Action A
  throw e db = (err e, db)

  abbrev pub gets : (Db → A) → Action A
  gets f db = (ok (f db), db)

  abbrev pub or_throw : Option A → Error → Action A
  or_throw none e db = (err e, db)
  or_throw (some a) e db = (ok a, db)

  abbrev settle : Db → Result A × Db → Result A × Db
  settle before (ok a, after) = (ok a, after)
  settle before (err e, after) = (err e, before)

  -- `prisma.$transaction`
  abbrev pub transaction : Action A → Action A
  transaction m db = settle db (m db)

  abbrev pub Succeeds : Result A → Type 0
  Succeeds (ok _) = Unit
  Succeeds (err _) = ⊥

infixl 5 ◌>>=◌ ◌>>◌
abbrev pub ◌>>=◌ : {A B : Type 0} → Action A → (A → Action B) → Action B
◌>>=◌ m f db = let (r, db') = m db in elim r [ ok a ↦ f a db' | err e ↦ (err e, db') ]

abbrev pub ◌>>◌ : {A B : Type 0} → Action A → Action B → Action B
m >> k = m >>= λ _. k

abbrev pub throw_if : Bool → Error → Action (Unit {0})
throw_if c e db = (if c then err e else ok tt, db)

abbrev pub modify : (Db → Db) → Action (Unit {0})
modify f db = (ok tt, f db)

pub Result-cases : {A : Type 0} (r : Result A) → Succeeds r ⊎ ((e : Error) × (r ≡ err e))
Result-cases (ok a) = inl tt
Result-cases (err e) = inr (e, refl)

abbrev renamed : Error → Error → Error
renamed e Error.foreign_key_violated = e
renamed e other = other

-- `catch (error) { if (error.code === 'P2003') throw e; throw error }`
abbrev pub on_foreign_key : {A : Type 0} → Error → Action A → Action A
on_foreign_key e m db =
    let (r, db') = m db in elim r [ ok a ↦ (ok a, db') | err x ↦ (err (renamed e x), db') ]

-- A `for` loop of awaited calls: the first that throws ends it.
unfoldable pub for_each : {A B : Type 0} → (A → Action B) → List A → Action (Unit {0})
for_each body [] db = pure tt db
for_each body (x ∷ xs) db = let rest = for_each body xs in (body x >>= λ _. rest) db

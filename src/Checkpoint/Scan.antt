-- ===== src/Checkpoint/Scan.antt =====
-- `loadValidQrCode` of checkpoint.service.ts: which codes it accepts, and what holds of a code after
-- it was used up.
use smart_parking_management.Prelude.{
  ℕ, true, false, ◌≡◌, some, List, [], ◌∷◌, arith, find_first, find_first-holds, update_many,
  Option-cases, inl, inr, ==_sound, ◌==◌,
}
use smart_parking_management.Schema.{Db, Reservation, QrCode}
use smart_parking_management.Schema.Status.{QrCodeType, is_active_code, same_qr_type}
use smart_parking_management.Action.{Succeeds}
use smart_parking_management.Tables.{find_reservation, use_code}
use smart_parking_management.Checkpoint.{load_valid_qr_code, find_code, is_past}

-- The code is an active one of the wanted kind that has not expired, and its reservation is there.
pub record IsScannable (now token : ℕ) (type : QrCodeType) (db : Db) (code : QrCode)
    (r : Reservation) : Type 0 where
  pub code_found : find_code token db ≡ some code
  pub right_type : same_qr_type code.qr_type type ≡ true
  pub unused : is_active_code code.status ≡ true
  pub not_expired : is_past code.expires_at now ≡ false
  pub reservation_found : find_reservation code.reservation_id db ≡ some r

module _ (now token : ℕ) (type : QrCodeType) (db : Db) where
  load-code :
      Succeeds (load_valid_qr_code now token type db).0
      → (code : QrCode) × (find_code token db ≡ some code)
  unfolding load_valid_qr_code
  load-code h = ground arith

  load-guards :
      (code : QrCode)
      → find_code token db ≡ some code
      → Succeeds (load_valid_qr_code now token type db).0
      → (same_qr_type code.qr_type type ≡ true)
        × (is_active_code code.status ≡ true)
        × (is_past code.expires_at now ≡ false)
  unfolding load_valid_qr_code
  load-guards code e h = ground arith

  load-reservation :
      (code : QrCode)
      → find_code token db ≡ some code
      → Succeeds (load_valid_qr_code now token type db).0
      → (r : Reservation) × (find_reservation code.reservation_id db ≡ some r)
  unfolding load_valid_qr_code
  load-reservation code e h = elim (Option-cases (find_reservation code.reservation_id db)) [
    | inl missing ↦ absurd (ground arith)
    | inr found ↦ found
  ]

  -- What is loaded is scannable.
  pub load-IsScannable :
      Succeeds (load_valid_qr_code now token type db).0
      → (code : QrCode) × (r : Reservation) × IsScannable now token type db code r
  load-IsScannable h =
      let (code, e) = load-code h in
      let (right_type, unused, not_expired) = load-guards code e h in
      let (r, found) = load-reservation code e h in
      (
        code,
        r,
        record {
          code_found = e;
          right_type = right_type;
          unused = unused;
          not_expired = not_expired;
          reservation_found = found;
        },
      )

pub found-id : (k : ℕ) (db : Db) {r : Reservation} → find_reservation k db ≡ some r → r.id ≡ k
found-id k db {r} e = ==_sound r.id k (find_first-holds _ db.reservations e)

-- An update by id keeps the tokens, so a code is found again after the update that uses it up.
pub find_code-use :
    (token now : ℕ) (code : QrCode) (codes : List QrCode)
    → find_first (λ c. c.token == token) codes ≡ some code
    → find_first (λ c. c.token == token) (update_many (λ c. c.id == code.id) (use_code now) codes)
      ≡ some (use_code now code)
find_code-use token now code [] h = cc
find_code-use token now code (c ∷ cs) h = ground (arith, find_code-use token now code cs)

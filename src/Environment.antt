-- ===== src/Environment.antt =====
-- What a call takes from outside the code: the clock, the settings and the generated ids.
-- One reading of the clock serves for all that a call makes. Local midnight depends on the time
-- zone that the server runs in, so it is an input.
use smart_parking_management.Prelude.{ℕ, ◌*◌}
use smart_parking_management.Schema.Status.{Role}

-- The `configService.get` calls of reservation.service.ts, reservation-monitoring.service.ts and
-- checkpoint.service.ts. The penalty multiplier is the fraction penalty_num / penalty_den.
pub record Config : Type 0 where
  pub checkin_grace_minutes : ℕ
  pub checkin_early_minutes : ℕ
  pub checkout_buffer_minutes : ℕ
  pub max_advance_days : ℕ
  pub reminder_offset_minutes : ℕ
  pub penalty_num : ℕ
  pub penalty_den : ℕ

-- The defaults that the code gives those settings.
abbrev pub default_config : Config
default_config = record {
  checkin_grace_minutes = 60;
  checkin_early_minutes = 15;
  checkout_buffer_minutes = 30;
  max_advance_days = 2;
  reminder_offset_minutes = 15;
  penalty_num = 3;
  penalty_den = 2;
}

pub record Env : Type 0 where
  pub config : Config
  pub now : ℕ
  pub start_of_today : ℕ

-- The ids that `@default(uuid())` gives to the rows that a call creates.
pub record Ids : Type 0 where
  pub reservation_id : ℕ
  pub qr_id : ℕ
  pub qr_token : ℕ

-- Who sends the request: `AuthenticatedUser` of backend/src/modules/auth/strategies/jwt.strategy.ts
pub record AuthenticatedUser : Type 0 where
  pub user_id : ℕ
  pub role : Role

-- `minutes * 60_000`
abbrev pub minutes_ms : ℕ → ℕ
minutes_ms minutes = minutes * 60_000

-- `days * 24 * 60 * 60 * 1000`
abbrev pub days_ms : ℕ → ℕ
days_ms days = days * 86_400_000

abbrev pub buffer_ms : Config → ℕ
buffer_ms c = minutes_ms c.checkout_buffer_minutes

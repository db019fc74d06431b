-- ===== src/Api/Reservations.antt =====
-- backend/src/modules/reservation/reservation.controller.ts
use smart_parking_management.Prelude.{ℕ, Option, none, List}
use smart_parking_management.Schema.Status.{Role}
use smart_parking_management.Action.{Action}
use smart_parking_management.Environment.{AuthenticatedUser}
use smart_parking_management.Reservations.{
  CreateReservationDto, create, find_by_lot, find_one, cancel, confirm_checkout_payment,
  fail_checkout_payment, find_my_reservations,
}
use smart_parking_management.Api.{Outside, done, queried, staff_only, customer_only}

pub data ReservationRequest : Type 0 where
  post_reservation : CreateReservationDto → ReservationRequest
  get_mine : ReservationRequest
  get_reservations : ℕ → ReservationRequest
  get_reservation : ℕ → ReservationRequest
  post_cancel : ℕ → ReservationRequest
  post_payment_confirm : ℕ → ReservationRequest
  post_payment_fail : ℕ → ReservationRequest

abbrev pub reservation_roles : ReservationRequest → Option (List Role)
reservation_roles (ReservationRequest.post_reservation _) = customer_only
reservation_roles (ReservationRequest.get_reservations _) = staff_only
reservation_roles _ = none

-- The handlers.
abbrev pub reservation_handler :
    Outside → ReservationRequest → AuthenticatedUser → Action (Unit {0})
reservation_handler o (ReservationRequest.post_reservation dto) user =
    done (create o.env o.ids dto user.user_id)
reservation_handler o ReservationRequest.get_mine user = queried (find_my_reservations user.user_id)
reservation_handler o (ReservationRequest.get_reservations lot_id) user =
    done (find_by_lot lot_id user)
reservation_handler o (ReservationRequest.get_reservation id) user = done (find_one id user)
reservation_handler o (ReservationRequest.post_cancel id) user = done (cancel id user)
reservation_handler o (ReservationRequest.post_payment_confirm id) user =
    done (confirm_checkout_payment o.env id user.user_id)
reservation_handler o (ReservationRequest.post_payment_fail id) user =
    done (fail_checkout_payment id user.user_id)

-- ===== src/Api/Checkpoint.antt =====
-- backend/src/modules/checkpoint/checkpoint.controller.ts
use smart_parking_management.Prelude.{ℕ, Option, List}
use smart_parking_management.Schema.Status.{Role}
use smart_parking_management.Action.{Action}
use smart_parking_management.Environment.{AuthenticatedUser}
use smart_parking_management.Checkpoint.{check_in, check_out}
use smart_parking_management.Api.{Outside, done, staff_only}

pub data CheckpointRequest : Type 0 where
  post_check_in : ℕ → CheckpointRequest
  post_check_out : ℕ → CheckpointRequest

abbrev pub checkpoint_roles : CheckpointRequest → Option (List Role)
checkpoint_roles _ = staff_only

abbrev pub checkpoint_handler : Outside → CheckpointRequest → AuthenticatedUser → Action (Unit {0})
checkpoint_handler o (CheckpointRequest.post_check_in token) user =
    done (check_in o.env o.code_ids token user.user_id)
checkpoint_handler o (CheckpointRequest.post_check_out token) user =
    done (check_out o.env token user.user_id)

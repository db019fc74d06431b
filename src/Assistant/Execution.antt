-- ===== src/Assistant/Execution.antt =====
-- The call of a tool: `execute` of the tools in backend/src/modules/assistant/tools, `runToolSafely` of
-- tool-definition.ts, `toLangChainTool` of assistant.service.ts, and what `resume` of
-- assistant.controller.ts answers a pause with. What a tool returns as a text is left out.
use smart_parking_management.Prelude.{
  ℕ, Bool, true, false, Option, none, some, List, [], ◌∷◌, if◌then◌else◌,
}
use smart_parking_management.Schema.{Db}
use smart_parking_management.Action.{Action, Result, ok, err, Error}
use smart_parking_management.Environment.{AuthenticatedUser}
use smart_parking_management.Services.{find_mine, mark_all_read}
use smart_parking_management.Reservations.{
  create, find_one, find_by_lot, find_my_reservations, cancel,
}
use smart_parking_management.Checkpoint.{check_in, check_out}
use smart_parking_management.ParkingSlots.{
  find_one_slot, update_status, bulk_update_status, search_slots,
}
use smart_parking_management.Users.{
  find_all_users, find_one_user, get_payment_method, update_profile, admin_update_profile, block,
  unblock,
}
use smart_parking_management.Users.Deletion as Deletion
use smart_parking_management.Floors.{create_floor}
use smart_parking_management.Lots.{create_lot, update_lot, remove_lot}
use smart_parking_management.Lots.Availability.{find_all, find_one_lot, find_floors}
use smart_parking_management.Lots.Maps.{Coordinates, find_nearby}
use smart_parking_management.Policy.{search_policies, default_top_k}
use smart_parking_management.Api.{Outside, done, queried, answer}
use smart_parking_management.Assistant.Tools.{ToolName, Args, definition}

-- The service call of a tool. That of the location is never made.
unfoldable pub service_call :
    Outside → (t : ToolName) → AuthenticatedUser → Args t → Action (Unit {0})
service_call o ToolName.find_nearby_parking_lots user dto =
    queried (find_nearby o.post_matrix o.distance dto)
service_call o ToolName.list_parking_lots user args = queried (find_all (some user))
service_call o ToolName.get_parking_lot user lot_id = done (find_one_lot lot_id (some user))
service_call o ToolName.list_parking_lot_floors user lot_id = done (find_floors lot_id)
service_call o ToolName.create_parking_lot user dto =
    done (create_lot o.same_name o.distance o.lot_ids dto user.user_id user.user_id)
service_call o ToolName.update_parking_lot user (lot_id, dto) = done (update_lot lot_id dto user)
service_call o ToolName.delete_parking_lot user lot_id = done (remove_lot lot_id user)
service_call o ToolName.create_parking_floor user (lot_id, dto) =
    done (create_floor o.slot_id o.new_id lot_id dto user)
service_call o ToolName.search_parking_slots user dto = queried (search_slots o.env.config dto)
service_call o ToolName.get_parking_slot user slot_id = done (find_one_slot slot_id)
service_call o ToolName.update_slot_status user (slot_id, dto) =
    done (update_status slot_id dto user)
service_call o ToolName.bulk_update_slot_status user dto = done (bulk_update_status dto user)
service_call o ToolName.list_my_reservations user args = queried (find_my_reservations user.user_id)
service_call o ToolName.get_reservation user reservation_id = done (find_one reservation_id user)
service_call o ToolName.list_lot_reservations user lot_id = done (find_by_lot lot_id user)
service_call o ToolName.book_parking_slot user dto = done (create o.env o.ids dto user.user_id)
service_call o ToolName.cancel_reservation user reservation_id = done (cancel reservation_id user)
service_call o ToolName.check_in_via_qr user token =
    done (check_in o.env o.code_ids token user.user_id)
service_call o ToolName.check_out_via_qr user token = done (check_out o.env token user.user_id)
service_call o ToolName.get_my_profile user args = done (find_one_user user.user_id)
service_call o ToolName.get_my_payment_method user args = done (get_payment_method user.user_id)
service_call o ToolName.list_all_users user args = done find_all_users
service_call o ToolName.get_user user user_id = done (find_one_user user_id)
service_call o ToolName.update_my_profile user dto =
    done (update_profile user.user_id dto user.role)
service_call o ToolName.block_user user user_id = done (block user_id user.user_id)
service_call o ToolName.unblock_user user user_id = done (unblock user_id user.user_id)
service_call o ToolName.update_user user (user_id, dto) =
    done (admin_update_profile user_id dto user.user_id)
service_call o ToolName.remove_manager user user_id = Deletion.remove_manager user_id user.user_id
service_call o ToolName.list_my_notifications user args =
    queried (λ db. find_mine user.user_id db.notifications)
service_call o ToolName.mark_notifications_read user args = mark_all_read user.user_id
service_call o ToolName.search_company_policies user query =
    queried (search_policies o.similarity query default_top_k)
service_call o ToolName.get_user_location user args = answer

-- `error instanceof HttpException`: all but the database's own errors.
abbrev pub is_http : Error → Bool
is_http Error.record_missing = false
is_http Error.foreign_key_violated = false
is_http _ = true

pub data ToolResult : Type 0 where
  succeeded declined location_unavailable : ToolResult
  failed : Error → ToolResult
  located : Coordinates → ToolResult

-- `runToolSafely`
abbrev pub run_tool_safely : Action (Unit {0}) → Action ToolResult
run_tool_safely fn db =
    let (r, db') = fn db in
    elim r [
      | ok _ ↦ (ok ToolResult.succeeded, db')
      | err e ↦ (if is_http e then ok (ToolResult.failed e) else err e, db')
    ]

abbrev pub execute : Outside → (t : ToolName) → AuthenticatedUser → Args t → Action ToolResult
execute o t user args = run_tool_safely (service_call o t user args)

-- The value that resumes a paused call: an approval or a refusal, coordinates, or null.
pub data ResumeValue : Type 0 where
  approved : Bool → ResumeValue
  coordinates : Coordinates → ResumeValue
  null : ResumeValue

-- The value read as a condition: an object counts as true.
abbrev pub is_truthy : ResumeValue → Bool
is_truthy (ResumeValue.approved b) = b
is_truthy (ResumeValue.coordinates _) = true
is_truthy ResumeValue.null = false

pub data InterruptPayload : Type 0 where
  confirmation : ToolName → InterruptPayload
  location : InterruptPayload

pub data Outcome : Type 0 where
  paused : InterruptPayload → Outcome
  returned : Result ToolResult → Outcome

abbrev finished : Result ToolResult × Db → Outcome × Db
finished (r, db) = (Outcome.returned r, db)

-- The answer of the device, as the body reads it.
abbrev to_location : ResumeValue → ToolResult
to_location (ResumeValue.coordinates c) = ToolResult.located c
to_location (ResumeValue.approved b) =
    if b then ToolResult.succeeded else ToolResult.location_unavailable
to_location ResumeValue.null = ToolResult.location_unavailable

-- The second half of the body: the question for the location, or the call.
unfoldable pub locate_or_execute :
    Outside
    → (t : ToolName) → AuthenticatedUser
    → Args t
    → Bool
    → List ResumeValue
    → Db
    → Outcome × Db
locate_or_execute o t user args false answers db = finished (execute o t user args db)
locate_or_execute o t user args true [] db = (Outcome.paused InterruptPayload.location, db)
locate_or_execute o t user args true (a ∷ _) db = (Outcome.returned (ok (to_location a)), db)

-- The first half: a mutating tool asks for a confirmation.
unfoldable pub confirm :
    Outside
    → (t : ToolName) → AuthenticatedUser
    → Args t
    → Bool
    → List ResumeValue
    → Db
    → Outcome × Db
unfolding locate_or_execute definition
confirm o t user args false answers =
    locate_or_execute o t user args (definition t).needs_location answers
confirm o t user args true [] = λ db. (Outcome.paused (InterruptPayload.confirmation t), db)
confirm o t user args true (a ∷ answers) = λ db.
    if is_truthy a
    then locate_or_execute o t user args (definition t).needs_location answers db
    else (Outcome.returned (ok ToolResult.declined), db)

-- The body of `toLangChainTool`, run with the answers that its interrupts have had so far: a resumed
-- call runs from the top, and each interrupt that has an answer returns it.
unfoldable pub run_tool :
    Outside → (t : ToolName) → AuthenticatedUser → Args t → List ResumeValue → Db → Outcome × Db
unfolding confirm definition
run_tool o t user args answers = confirm o t user args (definition t).mutating answers

pub record ResumeChatDto : Type 0 where
  pub approved : Option Bool
  pub latitude : Option ℕ
  pub longitude : Option ℕ

abbrev approved_or_null : Option Bool → ResumeValue
approved_or_null none = ResumeValue.null
approved_or_null (some b) = ResumeValue.approved b

abbrev resume_with : Option Bool → Option ℕ → Option ℕ → ResumeValue
resume_with answer_given (some latitude) (some longitude) =
    ResumeValue.coordinates (record { latitude = latitude; longitude = longitude })
resume_with answer_given none _ = approved_or_null answer_given
resume_with answer_given (some _) none = approved_or_null answer_given

-- The value that `AssistantController.resume` makes of its body.
unfoldable pub resume_value : ResumeChatDto → ResumeValue
resume_value dto = resume_with dto.approved dto.latitude dto.longitude

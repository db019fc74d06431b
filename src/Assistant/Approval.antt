-- ===== src/Assistant/Approval.antt =====
-- A call of a tool that asks for a confirmation, against the answer to it: what an answer that does not
-- confirm leaves, and that an answer with coordinates confirms, whatever else it says.
use smart_parking_management.Prelude.{
  ℕ, Bool, true, false, ◌≡◌, refl, sym, ◌∙◌, Option, some, List, [], ◌∷◌, arith,
}
use smart_parking_management.Schema.{Db}
use smart_parking_management.Environment.{AuthenticatedUser}
use smart_parking_management.Reservations.{find_one, find_by_lot}
use smart_parking_management.ParkingSlots.{find_one_slot}
use smart_parking_management.Users.{get_payment_method}
use smart_parking_management.Lots.Availability.{find_one_lot, find_floors}
use smart_parking_management.Api.{Outside}
use smart_parking_management.Assistant.Tools.{ToolName, Args, definition}
use smart_parking_management.Assistant.Execution.{
  ResumeValue, ResumeChatDto, is_truthy, locate_or_execute, confirm, run_tool, service_call,
  execute, resume_value,
}

module _ (o : Outside) (user : AuthenticatedUser) (db : Db) where
  -- The service call of a tool that is not mutating only reads.
  pub service_call_reads :
      (t : ToolName) (args : Args t)
      → (definition t).mutating ≡ false
      → (service_call o t user args db).1 ≡ db
  unfolding definition service_call find_one find_by_lot find_one_slot get_payment_method
      find_one_lot find_floors
  service_call_reads ToolName.find_nearby_parking_lots args h = refl
  service_call_reads ToolName.list_parking_lots args h = refl
  service_call_reads ToolName.get_parking_lot args h = ground arith
  service_call_reads ToolName.list_parking_lot_floors args h = ground arith
  service_call_reads ToolName.search_parking_slots args h = refl
  service_call_reads ToolName.get_parking_slot args h = ground arith
  service_call_reads ToolName.list_my_reservations args h = refl
  service_call_reads ToolName.get_reservation args h = ground arith
  service_call_reads ToolName.list_lot_reservations args h = ground arith
  service_call_reads ToolName.get_my_profile args h = ground arith
  service_call_reads ToolName.get_my_payment_method args h = ground arith
  service_call_reads ToolName.list_all_users args h = refl
  service_call_reads ToolName.get_user args h = ground arith
  service_call_reads ToolName.list_my_notifications args h = refl
  service_call_reads ToolName.search_company_policies args h = refl
  service_call_reads ToolName.get_user_location args h = refl
  service_call_reads ToolName.create_parking_lot args h = cc
  service_call_reads ToolName.update_parking_lot args h = cc
  service_call_reads ToolName.delete_parking_lot args h = cc
  service_call_reads ToolName.create_parking_floor args h = cc
  service_call_reads ToolName.update_slot_status args h = cc
  service_call_reads ToolName.bulk_update_slot_status args h = cc
  service_call_reads ToolName.book_parking_slot args h = cc
  service_call_reads ToolName.cancel_reservation args h = cc
  service_call_reads ToolName.check_in_via_qr args h = cc
  service_call_reads ToolName.check_out_via_qr args h = cc
  service_call_reads ToolName.update_my_profile args h = cc
  service_call_reads ToolName.block_user args h = cc
  service_call_reads ToolName.unblock_user args h = cc
  service_call_reads ToolName.update_user args h = cc
  service_call_reads ToolName.remove_manager args h = cc
  service_call_reads ToolName.mark_notifications_read args h = cc

  execute_reads :
      (t : ToolName) (args : Args t)
      → (definition t).mutating ≡ false
      → (execute o t user args db).1 ≡ db
  execute_reads t args h = let same = service_call_reads t args h in ground arith

  -- The answers begin with an approval, or with coordinates, which the code takes for one.
  abbrev pub is_confirmed : List ResumeValue → Bool
  is_confirmed [] = false
  is_confirmed (ResumeValue.approved answer ∷ _) = answer
  is_confirmed (ResumeValue.coordinates _ ∷ _) = true
  is_confirmed (ResumeValue.null ∷ _) = false

  confirmed-truthy :
      (a : ResumeValue) (answers : List ResumeValue) → is_confirmed (a ∷ answers) ≡ is_truthy a
  confirmed-truthy (ResumeValue.approved answer) answers = refl
  confirmed-truthy (ResumeValue.coordinates place) answers = refl
  confirmed-truthy ResumeValue.null answers = refl

  locate_or_execute_reads :
      (t : ToolName) (args : Args t) (needs : Bool) (answers : List ResumeValue)
      → (definition t).mutating ≡ false
      → (locate_or_execute o t user args needs answers db).1 ≡ db
  unfolding locate_or_execute
  locate_or_execute_reads t args false answers h = execute_reads t args h
  locate_or_execute_reads t args true [] h = refl
  locate_or_execute_reads t args true (a ∷ answers) h = refl

  confirm_unapproved :
      (t : ToolName) (args : Args t) (mutating : Bool) (answers : List ResumeValue)
      → (definition t).mutating ≡ mutating
      → is_confirmed answers ≡ false
      → (confirm o t user args mutating answers db).1 ≡ db
  unfolding confirm
  confirm_unapproved t args false answers m h =
      locate_or_execute_reads t args (definition t).needs_location answers m
  confirm_unapproved t args true [] m h = refl
  confirm_unapproved t args true (a ∷ answers) m h = rw (sym (confirmed-truthy a answers) ∙ h) refl

  -- Whatever tool the model calls and with whatever arguments, the call leaves the database as it was,
  -- unless the first answer to its questions is an approval or brings coordinates: so it does while it
  -- waits for an answer, after a refusal without coordinates, and for every tool that asks for no
  -- confirmation.
  pub run_tool_unapproved :
      (t : ToolName) (args : Args t) (answers : List ResumeValue)
      → is_confirmed answers ≡ false
      → (run_tool o t user args answers db).1 ≡ db
  unfolding run_tool
  run_tool_unapproved t args answers h =
      confirm_unapproved t args (definition t).mutating answers refl h

  confirm_truthy :
      (t : ToolName) (args : Args t) (mutating : Bool) (a : ResumeValue)
      → mutating ≡ true
      → is_truthy a ≡ true
      → confirm o t user args mutating (a ∷ []) db
        ≡ locate_or_execute o t user args (definition t).needs_location [] db
  unfolding confirm
  confirm_truthy t args true a m h = rw h refl
  confirm_truthy t args false a m h = cc

  -- A refusal that comes with coordinates counts as an approval: a mutating tool that waits for its
  -- confirmation runs as if it had been approved.
  pub resume_with_coordinates :
      (t : ToolName) (args : Args t) (answer : Option Bool) (latitude longitude : ℕ)
      → (definition t).mutating ≡ true
      → let dto : ResumeChatDto = record {
        approved = answer;
        latitude = some latitude;
        longitude = some longitude;
      } in
        run_tool o t user args (resume_value dto ∷ []) db
        ≡ run_tool o t user args (ResumeValue.approved true ∷ []) db
  unfolding run_tool resume_value
  resume_with_coordinates t args answer latitude longitude m =
      confirm_truthy t args (definition t).mutating _ m refl
      ∙ sym (confirm_truthy t args (definition t).mutating (ResumeValue.approved true) m refl)

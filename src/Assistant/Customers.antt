-- ===== src/Assistant/Customers.antt =====
-- What the tools change of the lots and the policy documents when the assistant calls them for a customer.
use smart_parking_management.Prelude.{
  Bool, true, false, ◌≡◌, ◌⊎◌, refl, subst, ◌∙◌, some, List, [], ◌∷◌, Bool-cases, inl, inr, arith,
}
use smart_parking_management.Schema.{Db}
use smart_parking_management.Schema.Status.{Role}
use smart_parking_management.Auth.{JwtPayload, validate}
use smart_parking_management.Environment.{AuthenticatedUser}
use smart_parking_management.Api.{Outside}
use smart_parking_management.Api.Routes.{Request}
use smart_parking_management.Api.Customers.{KeepsLots, customer-KeepsLots}
use smart_parking_management.Assistant.Tools.{ToolName, Args, definition, is_for}
use smart_parking_management.Assistant.Execution.{
  ResumeValue, service_call, execute, locate_or_execute, confirm, run_tool, is_truthy,
}
use smart_parking_management.Assistant.Approval.{service_call_reads}
use smart_parking_management.Assistant.Permissions.{
  request_of, call_if_offered, tool_agrees_with_request,
}

-- Every mutating tool stands for a request.
mutating-request :
    (t : ToolName) (args : Args t)
    → (definition t).mutating ≡ true
    → (request : Request) × (request_of t args ≡ some request)
unfolding definition
mutating-request ToolName.find_nearby_parking_lots args h = cc
mutating-request ToolName.list_parking_lots args h = cc
mutating-request ToolName.get_parking_lot args h = cc
mutating-request ToolName.list_parking_lot_floors args h = cc
mutating-request ToolName.search_parking_slots args h = cc
mutating-request ToolName.get_parking_slot args h = cc
mutating-request ToolName.list_my_reservations args h = cc
mutating-request ToolName.get_reservation args h = cc
mutating-request ToolName.list_lot_reservations args h = cc
mutating-request ToolName.get_my_profile args h = cc
mutating-request ToolName.get_my_payment_method args h = cc
mutating-request ToolName.list_all_users args h = cc
mutating-request ToolName.get_user args h = cc
mutating-request ToolName.list_my_notifications args h = cc
mutating-request ToolName.search_company_policies args h = cc
mutating-request ToolName.get_user_location args h = cc
mutating-request ToolName.create_parking_lot args h = (_, refl)
mutating-request ToolName.update_parking_lot args h = (_, refl)
mutating-request ToolName.delete_parking_lot args h = (_, refl)
mutating-request ToolName.create_parking_floor args h = (_, refl)
mutating-request ToolName.update_slot_status args h = (_, refl)
mutating-request ToolName.bulk_update_slot_status args h = (_, refl)
mutating-request ToolName.book_parking_slot args h = (_, refl)
mutating-request ToolName.cancel_reservation args h = (_, refl)
mutating-request ToolName.check_in_via_qr args h = (_, refl)
mutating-request ToolName.check_out_via_qr args h = (_, refl)
mutating-request ToolName.update_my_profile args h = (_, refl)
mutating-request ToolName.block_user args h = (_, refl)
mutating-request ToolName.unblock_user args h = (_, refl)
mutating-request ToolName.update_user args h = (_, refl)
mutating-request ToolName.remove_manager args h = (_, refl)
mutating-request ToolName.mark_notifications_read args h = (_, refl)

module _ (o : Outside) (user : AuthenticatedUser) (db : Db) where
  -- A database that is as it was, or as the tool's service call leaves it.
  abbrev MayCall : (t : ToolName) → Args t → Db → Type 0
  MayCall t args db' = (db' ≡ db) ⊎ (db' ≡ (service_call o t user args db).1)

  execute-MayCall :
      (t : ToolName) (args : Args t)
      → (execute o t user args db).1 ≡ (service_call o t user args db).1
  execute-MayCall t args = ground arith

  locate_or_execute-MayCall :
      (t : ToolName) (args : Args t) (needs : Bool) (answers : List ResumeValue)
      → MayCall t args (locate_or_execute o t user args needs answers db).1
  unfolding locate_or_execute
  locate_or_execute-MayCall t args false answers = inr (execute-MayCall t args)
  locate_or_execute-MayCall t args true [] = inl refl
  locate_or_execute-MayCall t args true (a ∷ answers) = inl refl

  confirm-MayCall :
      (t : ToolName) (args : Args t) (mutating : Bool) (answers : List ResumeValue)
      → MayCall t args (confirm o t user args mutating answers db).1
  unfolding confirm
  confirm-MayCall t args false answers =
      locate_or_execute-MayCall t args (definition t).needs_location answers
  confirm-MayCall t args true [] = inl refl
  confirm-MayCall t args true (a ∷ answers) = elim (Bool-cases (is_truthy a)) [
    | inl confirmed ↦
        rw confirmed (locate_or_execute-MayCall t args (definition t).needs_location answers)
    | inr declined ↦ rw declined (inl refl)
  ]

service_call-KeepsLots :
    (o : Outside) (payload : JwtPayload) (t : ToolName) (args : Args t) (db : Db)
    → payload.role ≡ Role.customer
    → is_for payload.role (definition t).roles ≡ true
    → KeepsLots db (service_call o t (validate payload) args db).1
service_call-KeepsLots o payload t args db e offered = elim (Bool-cases (definition t).mutating) [
  | inr reads ↦
      rw (service_call_reads o (validate payload) db t args reads) (refl, refl, refl, refl)
  | inl mutates ↦
      let (request, same) = mutating-request t args mutates in
      let agrees = tool_agrees_with_request o payload t args request db same in
      let kept = customer-KeepsLots o payload request db e in
      let called : call_if_offered o payload t args db
          ≡ service_call o t (validate payload) args db =
        rw offered refl in
      subst (λ p. KeepsLots db p.1) (agrees ∙ called) kept
]

-- A call of a tool that is offered to customers leaves the lots, their floors and the policy documents as
-- they were, when the assistant makes it for a customer, whatever its arguments and whatever the
-- customer has answered to its questions.
pub customer_tool-KeepsLots :
    (o : Outside) (payload : JwtPayload) (t : ToolName) (args : Args t) (answers : List ResumeValue)
    (db : Db)
    → payload.role ≡ Role.customer
    → is_for payload.role (definition t).roles ≡ true
    → KeepsLots db (run_tool o t (validate payload) args answers db).1
unfolding run_tool
customer_tool-KeepsLots o payload t args answers db e offered =
    elim (confirm-MayCall o (validate payload) db t args (definition t).mutating answers) [
      | inl same ↦ rw same (refl, refl, refl, refl)
      | inr called ↦ rw called (service_call-KeepsLots o payload t args db e offered)
    ]

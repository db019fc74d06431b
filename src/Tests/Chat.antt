-- ===== src/Tests/Chat.antt =====
-- Runs of the assistant: tools with and without approval, and a turn of the chat.
use smart_parking_management.Prelude.{◌≡◌, refl, true, false, none, some, [], ◌∷◌, List}
use smart_parking_management.Schema.{Text}
use smart_parking_management.Assistant.Tools.{ToolName, definition}
use smart_parking_management.Assistant.Execution.{ResumeValue, run_tool, resume_value}
use smart_parking_management.Assistant.Approval.{run_tool_unapproved, resume_with_coordinates}
use smart_parking_management.Assistant.Permissions.{tool_agrees_with_request, call_if_offered}
use smart_parking_management.Assistant.Customers.{customer_tool-KeepsLots}
use smart_parking_management.Api.Customers.{KeepsLots}
use smart_parking_management.Assistant.Stream.{Content, Part, StreamItem, StreamEnd, consume_stream}
use smart_parking_management.Assistant.Client.{ChatState, consume, send}
use smart_parking_management.Assistant.Activity.{ShowsText}
use smart_parking_management.Assistant.Shown.{turn_shown}
use smart_parking_management.Api.Reservations.{ReservationRequest}
use smart_parking_management.Api.Routes.{Request, handle}
use smart_parking_management.Tests.Data.{outside, user_7, payload_7, opening_db, booked_db, request}

-- The user declines a booking.
run_tool_unapproved_example :
    (run_tool outside ToolName.book_parking_slot user_7 request
      (ResumeValue.approved false ∷ [])
      opening_db).1
    ≡ opening_db
run_tool_unapproved_example =
    run_tool_unapproved outside user_7 opening_db ToolName.book_parking_slot request
      (ResumeValue.approved false ∷ []) refl

resume_with_coordinates_example :
    run_tool outside ToolName.cancel_reservation user_7 20
      (resume_value (record { approved = some false; latitude = some 51; longitude = some 7 }) ∷ [])
      booked_db
    ≡ run_tool outside ToolName.cancel_reservation user_7 20
        (ResumeValue.approved true ∷ [])
        booked_db
unfolding definition
resume_with_coordinates_example =
    resume_with_coordinates outside user_7 booked_db ToolName.cancel_reservation 20 (some false) 51
      7 refl

tool_agrees_with_request_example :
    handle outside
      (some payload_7)
      (Request.on_reservations (ReservationRequest.post_cancel 20))
      booked_db
    ≡ call_if_offered outside payload_7 ToolName.cancel_reservation 20 booked_db
tool_agrees_with_request_example =
    tool_agrees_with_request outside payload_7 ToolName.cancel_reservation 20
      (Request.on_reservations (ReservationRequest.post_cancel 20)) booked_db refl

abbrev says : Text → StreamItem
says text =
    StreamItem.messages (record { is_ai = true; content = Content.parts (Part.string text ∷ []) })

-- The model speaks, calls a tool, gets its result, and speaks again.
abbrev turn : List StreamItem
turn =
    says (b'H' ∷ b'i' ∷ [])
    ∷ StreamItem.updates (record {
      interrupts = [];
      agent_messages = (record { name = b't' ∷ []; args = [] } ∷ []) ∷ [];
      tool_messages = [];
    })
    ∷ StreamItem.messages (record { is_ai = false; content = Content.whole (b'{' ∷ []) })
    ∷ StreamItem.updates (record {
      interrupts = [];
      agent_messages = [];
      tool_messages = record { name = b't' ∷ []; content = Content.whole (b'{' ∷ []) } ∷ [];
    })
    ∷ says (b'!' ∷ [])
    ∷ []

abbrev empty_chat : ChatState
empty_chat = record {
  messages = [];
  is_streaming = false;
  pending_confirmation = none;
  error = none;
  active_message_id = none;
  next_id = 0;
}

turn_shown_example :
    let sent = send (b'?' ∷ []) empty_chat in
    let shown = consume (consume_stream turn StreamEnd.finished) sent in
    ShowsText sent.messages (b'H' ∷ b'i' ∷ b'!' ∷ []) shown × (shown.is_streaming ≡ false)
turn_shown_example =
    turn_shown (b'?' ∷ []) turn StreamEnd.finished empty_chat refl tt
      (refl, (refl, (refl, (refl, (refl, tt)))))

customer_tool-KeepsLots_example :
    KeepsLots booked_db
      (run_tool outside ToolName.cancel_reservation user_7 20
        (ResumeValue.approved true ∷ [])
        booked_db).1
unfolding definition
customer_tool-KeepsLots_example =
    customer_tool-KeepsLots outside payload_7 ToolName.cancel_reservation 20
      (ResumeValue.approved true ∷ []) booked_db refl refl

-- ===== src/Assistant/Client.antt =====
-- The chat in the browser: `useAssistantChat` of frontend/src/features/assistant/hooks.ts. The ids that
-- `crypto.randomUUID` gives are drawn from a counter; the follow-up requests are the caller's.
use smart_parking_management.Prelude.{
  ℕ, suc, Bool, true, false, not, ◌&&◌, Option, none, some, List, [], ◌∷◌, ◌++◌, map, ◌==◌,
  if◌then◌else◌,
}
use smart_parking_management.Schema.{Text}
use smart_parking_management.Tables.{same_text}
use smart_parking_management.Assistant.Stream.{AssistantEvent, StreamError, ToolCall}

pub record ToolActivityEntry : Type 0 where
  pub name : Text
  pub is_done : Bool

pub data Author : Type 0 where
  by_user by_assistant : Author

pub record AssistantMessage : Type 0 where
  pub id : ℕ
  pub author : Author
  pub text : Text
  pub tool_activity : List ToolActivityEntry

pub record ChatState : Type 0 where
  pub messages : List AssistantMessage
  pub is_streaming : Bool
  pub pending_confirmation : Option ToolCall
  pub error : Option StreamError
  pub active_message_id : Option ℕ
  pub next_id : ℕ

-- `markToolDone`: the earliest entry of the tool that is not done.
pub mark_tool_done : Text → List ToolActivityEntry → List ToolActivityEntry
mark_tool_done name [] = []
mark_tool_done name (entry ∷ entries) =
    let rest = mark_tool_done name entries in
    if same_text entry.name name && not entry.is_done
    then record entry { is_done = true } ∷ entries
    else entry ∷ rest

abbrev pub empty_message : ℕ → AssistantMessage
empty_message id = record { id = id; author = Author.by_assistant; text = []; tool_activity = [] }

abbrev pub update_message :
    ℕ → (AssistantMessage → AssistantMessage) → AssistantMessage → AssistantMessage
update_message id update m = if m.id == id then update m else m

abbrev pub append_at : Option ℕ → (AssistantMessage → AssistantMessage) → ChatState → ChatState
append_at (some id) update s = record s { messages = map (update_message id update) s.messages }
append_at none update s = record s {
  messages = s.messages ++ update (empty_message s.next_id) ∷ [];
  active_message_id = some s.next_id;
  next_id = suc s.next_id;
}

-- `appendToActiveMessage`
abbrev pub append_to_active_message : (AssistantMessage → AssistantMessage) → ChatState → ChatState
append_to_active_message update s = append_at s.active_message_id update s

abbrev pub add_text : Text → AssistantMessage → AssistantMessage
add_text text m = record m { text = m.text ++ text }

abbrev pub add_activity : Text → AssistantMessage → AssistantMessage
add_activity name m = record m {
  tool_activity = m.tool_activity ++ record { name = name; is_done = false } ∷ [];
}

abbrev pub finish_activity : Text → AssistantMessage → AssistantMessage
finish_activity name m = record m { tool_activity = mark_tool_done name m.tool_activity }

-- `handleEvent`
unfoldable pub handle_event : AssistantEvent → ChatState → ChatState
unfolding mark_tool_done
handle_event (AssistantEvent.token text) s = append_to_active_message (add_text text) s
handle_event (AssistantEvent.tool_call call) s = append_to_active_message (add_activity call.name) s
handle_event (AssistantEvent.tool_result name _) s =
    append_to_active_message (finish_activity name) s
handle_event (AssistantEvent.confirmation_required call) s = record s {
  pending_confirmation = some call;
}
-- The browser fetches the location and then calls `consume` again, on the resumed stream.
handle_event AssistantEvent.location_required s = s
handle_event (AssistantEvent.error message) s = record s { error = some message }
handle_event AssistantEvent.done s = s

-- The loop of `consume` over the events.
unfoldable pub handle_events : List AssistantEvent → ChatState → ChatState
handle_events [] s = s
handle_events (e ∷ es) s = handle_events es (handle_event e s)

-- `consume`, of a stream that breaks nowhere.
unfoldable pub consume : List AssistantEvent → ChatState → ChatState
unfolding handle_events
consume events s = record (handle_events events (record s { is_streaming = true; error = none })) {
  is_streaming = false;
}

-- The user's message, below the others; the next event begins a new bubble.
abbrev pub with_user_message : Text → ChatState → ChatState
with_user_message trimmed s = record s {
  messages =
      s.messages
      ++ record { id = s.next_id; author = Author.by_user; text = trimmed; tool_activity = [] }
        ∷ [];
  active_message_id = none;
  next_id = suc s.next_id;
}

-- `!trimmed || isStreaming`
abbrev pub is_held_back : Text → ChatState → Bool
is_held_back [] s = true
is_held_back (_ ∷ _) s = s.is_streaming

-- What `send` shows at once of a message, its ends trimmed.
unfoldable pub send : Text → ChatState → ChatState
send trimmed s = if is_held_back trimmed s then s else with_user_message trimmed s

-- What `respondToConfirmation` shows at once.
unfoldable pub respond_to_confirmation : ChatState → ChatState
respond_to_confirmation s = record s { pending_confirmation = none }

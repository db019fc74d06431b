-- ===== src/Assistant/Stream.antt =====
-- The stream of a turn: `consumeStream`, `handleMessageChunk`, `handleUpdateChunk`, `extractText` and
-- `describeStreamError` of backend/src/modules/assistant/assistant.service.ts. What the graph's stream
-- brings is an input: its chunks up to its end, or up to an error, of which the idle timeout is one.
use smart_parking_management.Prelude.{
  ℕ, ◌+◌, Bool, true, false, ◌&&◌, ◌||◌, Option, none, some, List, [], ◌∷◌, ◌++◌, map, leb, ◌==◌,
  if◌then◌else◌,
}
use smart_parking_management.Schema.{Text}
use smart_parking_management.Tables.{same_text}

-- The arguments of a call are the JSON text of them.
pub record ToolCall : Type 0 where
  pub name : Text
  pub args : Text

-- The messages of `describeStreamError`.
pub data StreamError : Type 0 where
  no_response too_many_requests too_many_steps went_wrong : StreamError

pub data AssistantEvent : Type 0 where
  token : Text → AssistantEvent
  tool_call : ToolCall → AssistantEvent
  tool_result : Text → Text → AssistantEvent
  confirmation_required : ToolCall → AssistantEvent
  location_required done : AssistantEvent
  error : StreamError → AssistantEvent

-- A part of a content: a string, or an object that may have a text.
pub data Part : Type 0 where
  string : Text → Part
  object : Option Text → Part

pub data Content : Type 0 where
  whole : Text → Content
  parts : List Part → Content
  neither : Content

abbrev pub part_text : Part → Text
part_text (Part.string t) = t
part_text (Part.object (some t)) = t
part_text (Part.object none) = []

-- `join('')`
abbrev pub join : List Text → Text
join [] = []
join (t ∷ ts) = t ++ join ts

abbrev pub extract_text : Content → Text
extract_text (Content.whole t) = t
extract_text (Content.parts ps) = join (map part_text ps)
extract_text Content.neither = []

pub record MessageChunk : Type 0 where
  pub is_ai : Bool
  pub content : Content

pub data InterruptValue : Type 0 where
  confirmation : ToolCall → InterruptValue
  location : InterruptValue

pub record ToolMessage : Type 0 where
  pub name : Text
  pub content : Content

-- A list that is left out is empty.
pub record UpdateChunk : Type 0 where
  pub interrupts : List InterruptValue
  pub agent_messages : List (List ToolCall)
  pub tool_messages : List ToolMessage

pub data StreamItem : Type 0 where
  messages : MessageChunk → StreamItem
  updates : UpdateChunk → StreamItem
  other_mode : StreamItem

abbrev pub token_of : Text → List AssistantEvent
token_of [] = []
token_of (c ∷ cs) = AssistantEvent.token (c ∷ cs) ∷ []

abbrev pub handle_message_chunk : MessageChunk → List AssistantEvent
handle_message_chunk chunk = if chunk.is_ai then token_of (extract_text chunk.content) else []

abbrev interrupt_event : InterruptValue → AssistantEvent
interrupt_event InterruptValue.location = AssistantEvent.location_required
interrupt_event (InterruptValue.confirmation call) = AssistantEvent.confirmation_required call

abbrev pub call_events : List (List ToolCall) → List AssistantEvent
call_events [] = []
call_events (calls ∷ rest) = map AssistantEvent.tool_call calls ++ call_events rest

abbrev pub result_events : List ToolMessage → List AssistantEvent
result_events [] = []
result_events (m ∷ ms) =
    AssistantEvent.tool_result m.name (extract_text m.content) ∷ result_events ms

abbrev pub update_events : List InterruptValue → UpdateChunk → List AssistantEvent
update_events (i ∷ _) chunk = interrupt_event i ∷ []
update_events [] chunk = call_events chunk.agent_messages ++ result_events chunk.tool_messages

abbrev pub handle_update_chunk : UpdateChunk → List AssistantEvent
handle_update_chunk chunk = update_events chunk.interrupts chunk

abbrev pub item_events : StreamItem → List AssistantEvent
item_events (StreamItem.messages chunk) = handle_message_chunk chunk
item_events (StreamItem.updates chunk) = handle_update_chunk chunk
item_events StreamItem.other_mode = []

-- A letter as the flag `i` of a regular expression reads it.
abbrev lower : ℕ → ℕ
lower c = if leb 65 c && leb c 90 then c + 32 else c

-- Whether a text begins with a pattern, in which none stands for any character.
abbrev begins_with : List (Option ℕ) → Text → Bool
begins_with [] text = true
begins_with (_ ∷ _) [] = false
begins_with (none ∷ ps) (_ ∷ cs) = begins_with ps cs
begins_with (some p ∷ ps) (c ∷ cs) = lower c == p && begins_with ps cs

abbrev contains : List (Option ℕ) → Text → Bool
contains pattern [] = begins_with pattern []
contains pattern (c ∷ cs) = begins_with pattern (c ∷ cs) || contains pattern cs

abbrev word : Text → List (Option ℕ)
word = map some

abbrev is_rate_limit : Text → Bool
is_rate_limit m =
    contains (word (b'4' ∷ b'2' ∷ b'9' ∷ [])) m
    || contains (word (b'q' ∷ b'u' ∷ b'o' ∷ b't' ∷ b'a' ∷ [])) m
    || contains (word (b'r' ∷ b'a' ∷ b't' ∷ b'e' ∷ b'l' ∷ b'i' ∷ b'm' ∷ b'i' ∷ b't' ∷ [])) m
    || contains
        (word (b'r' ∷ b'a' ∷ b't' ∷ b'e' ∷ [])
          ++ none ∷ word (b'l' ∷ b'i' ∷ b'm' ∷ b'i' ∷ b't' ∷ []))
        m

abbrev pub idle_timeout : Text
idle_timeout =
    (b'A' ∷ b'S' ∷ b'S' ∷ b'I' ∷ b'S' ∷ b'T' ∷ b'A' ∷ b'N' ∷ b'T' ∷ b'_' ∷ b'S' ∷ b'T' ∷ b'R' ∷ b'E'
      ∷ b'A' ∷ b'M' ∷ b'_' ∷ b'I' ∷ b'D' ∷ b'L' ∷ b'E' ∷ b'_' ∷ b'T' ∷ b'I' ∷ b'M' ∷ b'E' ∷ b'O'
      ∷ b'U' ∷ b'T' ∷ [])

-- `describeStreamError`
unfoldable pub describe_stream_error : Text → StreamError
describe_stream_error message =
    if same_text message idle_timeout
    then StreamError.no_response
    else if is_rate_limit message
    then StreamError.too_many_requests
    else if contains
        (word (
          b'r' ∷ b'e' ∷ b'c' ∷ b'u' ∷ b'r' ∷ b's' ∷ b'i' ∷ b'o' ∷ b'n' ∷ b' ' ∷ b'l' ∷ b'i' ∷ b'm'
          ∷ b'i' ∷ b't' ∷ []))
        message
    then StreamError.too_many_steps
    else StreamError.went_wrong

pub data StreamEnd : Type 0 where
  finished : StreamEnd
  failed : Text → StreamEnd

abbrev pub end_event : StreamEnd → AssistantEvent
end_event StreamEnd.finished = AssistantEvent.done
end_event (StreamEnd.failed message) = AssistantEvent.error (describe_stream_error message)

-- `consumeStream`: its loop over the chunks, and the event after it. How the stream ended is an input, in
-- place of the try/catch and of the race with the idle timer.
unfoldable pub consume_stream : List StreamItem → StreamEnd → List AssistantEvent
consume_stream [] end = end_event end ∷ []
consume_stream (item ∷ items) end = item_events item ++ consume_stream items end

-- ===== src/Assistant/Shown.antt =====
-- What the events of a stream leave in the chat's state, while no tool asks for the location.
use smart_parking_management.Prelude.{
  Bool, true, false, ◌≡◌, refl, ap, subst, sym, ◌∙◌, List, [], ◌∷◌, ◌++◌, map, All, if◌then◌else◌,
}
use smart_parking_management.Schema.{Text}
use smart_parking_management.Assistant.Stream.{
  AssistantEvent, ToolCall, join, token_of, call_events, result_events, update_events, item_events,
  extract_text, consume_stream, StreamItem, StreamEnd, ToolMessage, InterruptValue, UpdateChunk,
}
use smart_parking_management.Assistant.Turns.{spoken, said, ++_assoc, ++_nil}
use smart_parking_management.Assistant.Client.{ChatState, consume, send, is_held_back}
use smart_parking_management.Assistant.Activity.{HasDrawnIds, ShowsText, send-consume}

spoken-append : (xs ys : List AssistantEvent) → spoken (xs ++ ys) ≡ spoken xs ++ spoken ys
spoken-append [] ys = refl
spoken-append (AssistantEvent.token t ∷ xs) ys =
    ap (λ u. t ++ u) (spoken-append xs ys) ∙ sym (++_assoc t (spoken xs) (spoken ys))
spoken-append (AssistantEvent.tool_call _ ∷ xs) ys = spoken-append xs ys
spoken-append (AssistantEvent.tool_result _ _ ∷ xs) ys = spoken-append xs ys
spoken-append (AssistantEvent.confirmation_required _ ∷ xs) ys = spoken-append xs ys
spoken-append (AssistantEvent.location_required ∷ xs) ys = spoken-append xs ys
spoken-append (AssistantEvent.error _ ∷ xs) ys = spoken-append xs ys
spoken-append (AssistantEvent.done ∷ xs) ys = spoken-append xs ys

token_text : (t : Text) → spoken (token_of t) ≡ t
token_text [] = refl
token_text (c ∷ cs) = ++_nil (c ∷ cs)

calls_silent : (calls : List ToolCall) → spoken (map AssistantEvent.tool_call calls) ≡ []
calls_silent [] = refl
calls_silent (c ∷ cs) = calls_silent cs

agent_silent : (messages : List (List ToolCall)) → spoken (call_events messages) ≡ []
agent_silent [] = refl
agent_silent (calls ∷ rest) =
    spoken-append (map AssistantEvent.tool_call calls) (call_events rest)
    ∙ rw (calls_silent calls) (agent_silent rest)

results_silent : (messages : List ToolMessage) → spoken (result_events messages) ≡ []
results_silent [] = refl
results_silent (m ∷ ms) = results_silent ms

update_silent :
    (is : List InterruptValue) (chunk : UpdateChunk) → spoken (update_events is chunk) ≡ []
update_silent (InterruptValue.location ∷ _) chunk = refl
update_silent (InterruptValue.confirmation _ ∷ _) chunk = refl
update_silent [] chunk =
    spoken-append (call_events chunk.agent_messages) (result_events chunk.tool_messages)
    ∙ rw (agent_silent chunk.agent_messages) (results_silent chunk.tool_messages)

message_said :
    (is_ai : Bool) (t : Text)
    → spoken (if is_ai then token_of t else []) ≡ (if is_ai then t else [])
message_said true t = token_text t
message_said false t = refl

item_said : (item : StreamItem) → spoken (item_events item) ≡ said item
item_said (StreamItem.messages chunk) = message_said chunk.is_ai (extract_text chunk.content)
item_said (StreamItem.updates chunk) = update_silent chunk.interrupts chunk
item_said StreamItem.other_mode = refl

turn_said :
    (items : List StreamItem) (end : StreamEnd)
    → spoken (consume_stream items end) ≡ join (map said items)
unfolding consume_stream
turn_said [] StreamEnd.finished = refl
turn_said [] (StreamEnd.failed _) = refl
turn_said (item ∷ items) end =
    spoken-append (item_events item) (consume_stream items end)
    ∙ ap (λ t. t ++ spoken (consume_stream items end)) (item_said item)
    ∙ ap (λ t. said item ++ t) (turn_said items end)

abbrev is_location : List InterruptValue → Bool
is_location (InterruptValue.location ∷ _) = true
is_location _ = false

-- Whether a chunk of the stream asks for the location: the browser then fetches it and consumes another
-- stream, which is not followed here.
abbrev pub asks_location : StreamItem → Bool
asks_location (StreamItem.updates chunk) = is_location chunk.interrupts
asks_location _ = false

-- After the user has sent a message whose trimmed text is not empty, while no turn is running, and
-- while no chunk asks for the location: the events that the backend makes of the stream's chunks, when
-- all of them are handled, have added at most one message below the user's, whose text is what the
-- model itself said in the chunks, in their order and whole, with nothing of what the tools returned;
-- and the chat is not streaming any more.
pub turn_shown :
    (text : Text) (items : List StreamItem) (end : StreamEnd) (s : ChatState)
    → is_held_back text s ≡ false
    → HasDrawnIds s
    → All (λ item. asks_location item ≡ false) items
    → let sent = send text s in
      let shown = consume (consume_stream items end) sent in
      ShowsText sent.messages (join (map said items)) shown × (shown.is_streaming ≡ false)
turn_shown text items end s ready drawn here =
    let sent = send text s in
    let shown = consume (consume_stream items end) sent in
    let (fits, over) = send-consume text (consume_stream items end) s ready drawn in
    (subst (λ t. ShowsText sent.messages t shown) (turn_said items end) fits, over)

-- ===== src/Assistant/Turns.antt =====
-- The last event that a turn of the chat sends.
use smart_parking_management.Prelude.{
  Bool, true, false, ◌≡◌, refl, ap, sym, ◌∙◌, List, [], ◌∷◌, ◌++◌, map, All, if◌then◌else◌,
}
use smart_parking_management.Schema.{Text}
use smart_parking_management.Assistant.Stream.{
  AssistantEvent, UpdateChunk, InterruptValue, ToolMessage, ToolCall, StreamItem, StreamEnd,
  extract_text, token_of, call_events, result_events, update_events, item_events, end_event,
  consume_stream,
}

-- Whether an event says that the turn is over.
abbrev pub is_last : AssistantEvent → Bool
is_last AssistantEvent.done = true
is_last (AssistantEvent.error _) = true
is_last _ = false

abbrev pub NoneLast : List AssistantEvent → Type 0
NoneLast = All (λ e. is_last e ≡ false)

module _ {A : Type 0} (P : A → Type 0) where
  All-append : (xs ys : List A) → All P xs → All P ys → All P (xs ++ ys)
  All-append [] ys h k = k
  All-append (x ∷ xs) ys h k = (h.0, All-append xs ys h.1 k)

pub ++_nil : {A : Type 0} (xs : List A) → xs ++ [] ≡ xs
++_nil [] = refl
++_nil (x ∷ xs) = ap (x ∷◌) (++_nil xs)

pub ++_assoc : {A : Type 0} (xs ys zs : List A) → (xs ++ ys) ++ zs ≡ xs ++ (ys ++ zs)
++_assoc [] ys zs = refl
++_assoc (x ∷ xs) ys zs = ap (x ∷◌) (++_assoc xs ys zs)

calls_not_last : (calls : List ToolCall) → NoneLast (map AssistantEvent.tool_call calls)
calls_not_last [] = tt
calls_not_last (c ∷ cs) = (refl, calls_not_last cs)

agent_not_last : (messages : List (List ToolCall)) → NoneLast (call_events messages)
agent_not_last [] = tt
agent_not_last (calls ∷ rest) =
    All-append _ _ (call_events rest) (calls_not_last calls) (agent_not_last rest)

results_not_last : (messages : List ToolMessage) → NoneLast (result_events messages)
results_not_last [] = tt
results_not_last (m ∷ ms) = (refl, results_not_last ms)

interrupted_not_last :
    (interrupts : List InterruptValue) (chunk : UpdateChunk)
    → NoneLast (update_events interrupts chunk)
interrupted_not_last (InterruptValue.location ∷ _) chunk = (refl, tt)
interrupted_not_last (InterruptValue.confirmation _ ∷ _) chunk = (refl, tt)
interrupted_not_last [] chunk =
    All-append _ _ (result_events chunk.tool_messages) (agent_not_last chunk.agent_messages)
      (results_not_last chunk.tool_messages)

token_not_last : (text : Text) → NoneLast (token_of text)
token_not_last [] = tt
token_not_last (_ ∷ _) = (refl, tt)

said_not_last : (is_ai : Bool) (text : Text) → NoneLast (if is_ai then token_of text else [])
said_not_last true text = token_not_last text
said_not_last false text = tt

item_not_last : (item : StreamItem) → NoneLast (item_events item)
item_not_last (StreamItem.messages chunk) = said_not_last chunk.is_ai (extract_text chunk.content)
item_not_last (StreamItem.updates chunk) = interrupted_not_last chunk.interrupts chunk
item_not_last StreamItem.other_mode = tt

end_is_last : (end : StreamEnd) → is_last (end_event end) ≡ true
end_is_last StreamEnd.finished = refl
end_is_last (StreamEnd.failed _) = refl

-- What a turn sends ends with exactly one event that says that the turn is over, `done` if the graph's
-- stream ends by itself, and an error if it breaks or stalls; no such event comes earlier.
pub consume_stream_ends :
    (items : List StreamItem) (end : StreamEnd)
    → (events : List AssistantEvent) × (consume_stream items end ≡ events ++ end_event end ∷ [])
      × NoneLast events
      × (is_last (end_event end) ≡ true)
unfolding consume_stream
consume_stream_ends [] end = ([], refl, tt, end_is_last end)
consume_stream_ends (item ∷ items) end =
    let (events, same, early, over) = consume_stream_ends items end in
    (
      item_events item ++ events,
      ap (λ es. item_events item ++ es) same
          ∙ sym (++_assoc (item_events item) events (end_event end ∷ [])),
      All-append _ (item_events item) events (item_not_last item) early,
      over,
    )

-- The texts of the tokens, in their order.
abbrev pub spoken : List AssistantEvent → Text
spoken [] = []
spoken (AssistantEvent.token t ∷ es) = t ++ spoken es
spoken (_ ∷ es) = spoken es

-- What the model says in a chunk of the stream.
abbrev pub said : StreamItem → Text
said (StreamItem.messages chunk) = if chunk.is_ai then extract_text chunk.content else []
said _ = []

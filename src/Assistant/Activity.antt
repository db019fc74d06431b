-- ===== src/Assistant/Activity.antt =====
-- What the chat shows of a turn: one bubble with the tokens in the order in which they came, and the
-- tools that still run.
use smart_parking_management.Prelude.{
  ℕ, suc, ◌<◌, true, false, ◌≡◌, ◌≤◌, refl, ap, subst, sym, ◌∙◌, none, some, List, [], ◌∷◌, ◌++◌,
  map, length, All, ◌==◌, arith, ==_refl,
}
use smart_parking_management.Schema.{Text}
use smart_parking_management.Assistant.Stream.{AssistantEvent, join}
use smart_parking_management.Assistant.Turns.{spoken, ++_assoc, ++_nil}
use smart_parking_management.Assistant.Client.{
  AssistantMessage, ChatState, empty_message, update_message, add_text, add_activity,
  finish_activity, append_at, append_to_active_message, handle_event, handle_events, consume, send,
  with_user_message, is_held_back,
}

-- What the events of a turn make of the bubble.
abbrev step_bubble : AssistantEvent → AssistantMessage → AssistantMessage
step_bubble (AssistantEvent.token text) m = add_text text m
step_bubble (AssistantEvent.tool_call call) m = add_activity call.name m
step_bubble (AssistantEvent.tool_result name _) m = finish_activity name m
step_bubble _ m = m

abbrev bubble_after : List AssistantEvent → AssistantMessage → AssistantMessage
bubble_after [] m = m
bubble_after (e ∷ es) m = bubble_after es (step_bubble e m)

abbrev IsOther : ℕ → List AssistantMessage → Type 0
IsOther id = All (λ m. (m.id == id) ≡ false)

updates_last :
    (f : AssistantMessage → AssistantMessage) (old : List AssistantMessage) (m : AssistantMessage)
    → IsOther m.id old
    → map (update_message m.id f) (old ++ m ∷ []) ≡ old ++ f m ∷ []
updates_last f [] m h = let self = ==_refl m.id in rw self refl
updates_last f (x ∷ old) m h = rw h.0 (ap (x ∷◌) (updates_last f old m h.1))

-- The state has the bubble last, and it is the active one.
abbrev Shows : List AssistantMessage → AssistantMessage → ChatState → Type 0
Shows old m s = IsOther m.id old × (s.messages ≡ old ++ m ∷ []) × (s.active_message_id ≡ some m.id)

Shows-append :
    (f : AssistantMessage → AssistantMessage) (old : List AssistantMessage) (m : AssistantMessage)
    (s : ChatState)
    → (f m).id ≡ m.id
    → Shows old m s
    → Shows old (f m) (append_to_active_message f s)
Shows-append f old m s same (other, rows, active) = (
  subst (λ k. IsOther k old) (sym same) other,
  ap (λ a. (append_at a f s).messages) active
      ∙ ap (map (update_message m.id f)) rows
      ∙ updates_last f old m other,
  ap (λ a. (append_at a f s).active_message_id) active ∙ active ∙ ap some (sym same),
)

Shows-event :
    (e : AssistantEvent) (old : List AssistantMessage) (m : AssistantMessage) (s : ChatState)
    → Shows old m s
    → Shows old (step_bubble e m) (handle_event e s)
unfolding handle_event
Shows-event (AssistantEvent.token text) old m s h = Shows-append (add_text text) old m s refl h
Shows-event (AssistantEvent.tool_call call) old m s h =
    Shows-append (add_activity call.name) old m s refl h
Shows-event (AssistantEvent.tool_result name _) old m s h =
    Shows-append (finish_activity name) old m s refl h
Shows-event (AssistantEvent.confirmation_required _) old m s h = h
Shows-event AssistantEvent.location_required old m s h = h
Shows-event (AssistantEvent.error _) old m s h = h
Shows-event AssistantEvent.done old m s h = h

Shows-events :
    (es : List AssistantEvent) (old : List AssistantMessage) (m : AssistantMessage) (s : ChatState)
    → Shows old m s
    → Shows old (bubble_after es m) (handle_events es s)
unfolding handle_events
Shows-events [] old m s h = h
Shows-events (e ∷ es) old m s h =
    Shows-events es old (step_bubble e m) (handle_event e s) (Shows-event e old m s h)

text-bubble_after :
    (es : List AssistantEvent) (m : AssistantMessage)
    → (bubble_after es m).text ≡ m.text ++ spoken es
text-bubble_after [] m = sym (++_nil m.text)
text-bubble_after (AssistantEvent.token t ∷ es) m =
    text-bubble_after es (add_text t m) ∙ ++_assoc m.text t (spoken es)
text-bubble_after (AssistantEvent.tool_call call ∷ es) m =
    text-bubble_after es (add_activity call.name m)
text-bubble_after (AssistantEvent.tool_result name _ ∷ es) m =
    text-bubble_after es (finish_activity name m)
text-bubble_after (AssistantEvent.confirmation_required _ ∷ es) m = text-bubble_after es m
text-bubble_after (AssistantEvent.location_required ∷ es) m = text-bubble_after es m
text-bubble_after (AssistantEvent.error _ ∷ es) m = text-bubble_after es m
text-bubble_after (AssistantEvent.done ∷ es) m = text-bubble_after es m

-- The ids of the messages have all been drawn.
abbrev pub HasDrawnIds : ChatState → Type 0
HasDrawnIds s = All (λ m. m.id < s.next_id) s.messages

drawn_others : (n : ℕ) (ms : List AssistantMessage) → All (λ m. m.id < n) ms → IsOther n ms
drawn_others n [] h = tt
drawn_others n (m ∷ ms) h = (ground (arith, h.0), drawn_others n ms h.1)

-- What is new below the messages of a state, with its text.
abbrev pub ShowsText : List AssistantMessage → Text → ChatState → Type 0
ShowsText old text s =
    (new : List AssistantMessage) × (s.messages ≡ old ++ new)
    × (length new ≤ 1)
    × (join (map (λ m. m.text) new) ≡ text)

shown_new :
    (f : AssistantMessage → AssistantMessage) (es : List AssistantEvent) (s : ChatState)
    → s.active_message_id ≡ none
    → HasDrawnIds s
    → (f (empty_message s.next_id)).id ≡ s.next_id
    → ShowsText s.messages
        ((f (empty_message s.next_id)).text ++ spoken es)
        (handle_events es (append_to_active_message f s))
shown_new f es s inactive drawn same =
    let m = f (empty_message s.next_id) in
    let others = drawn_others s.next_id s.messages drawn in
    let first : Shows s.messages m (append_to_active_message f s) = (
      subst (λ k. IsOther k s.messages) (sym same) others,
      ap (λ a. (append_at a f s).messages) inactive,
      ap (λ a. (append_at a f s).active_message_id) inactive ∙ ap some (sym same),
    ) in
    let (other, rows, active) = Shows-events es s.messages m (append_to_active_message f s) first in
    (
      bubble_after es m ∷ [],
      rows,
      omega arith,
      ++_nil (bubble_after es m).text ∙ text-bubble_after es m,
    )

shown_events :
    (es : List AssistantEvent) (s : ChatState)
    → s.active_message_id ≡ none
    → HasDrawnIds s
    → ShowsText s.messages (spoken es) (handle_events es s)
unfolding handle_events handle_event
shown_events [] s inactive drawn = ([], sym (++_nil s.messages), omega arith, refl)
shown_events (AssistantEvent.token t ∷ es) s inactive drawn =
    shown_new (add_text t) es s inactive drawn refl
shown_events (AssistantEvent.tool_call call ∷ es) s inactive drawn =
    shown_new (add_activity call.name) es s inactive drawn refl
shown_events (AssistantEvent.tool_result name _ ∷ es) s inactive drawn =
    shown_new (finish_activity name) es s inactive drawn refl
shown_events (AssistantEvent.confirmation_required call ∷ es) s inactive drawn =
    shown_events es (record s { pending_confirmation = some call }) inactive drawn
shown_events (AssistantEvent.location_required ∷ es) s inactive drawn =
    shown_events es s inactive drawn
shown_events (AssistantEvent.error e ∷ es) s inactive drawn =
    shown_events es (record s { error = some e }) inactive drawn
shown_events (AssistantEvent.done ∷ es) s inactive drawn = shown_events es s inactive drawn

drawn_send :
    (n : ℕ) (ms : List AssistantMessage) (m : AssistantMessage)
    → All (λ x. x.id < n) ms
    → m.id ≡ n
    → All (λ x. x.id < suc n) (ms ++ m ∷ [])
drawn_send n [] m h e = (omega (arith, e), tt)
drawn_send n (x ∷ xs) m h e = (omega (arith, h.0), drawn_send n xs m h.1 e)

-- After the user has sent a message that is not blank, while no turn is running, the events of the turn add at most one message below it, whose text
-- is what the tokens say, in their order and whole, however calls, results and questions come between
-- them; and the chat is not streaming any more.
pub send-consume :
    (text : Text) (events : List AssistantEvent) (s : ChatState)
    → is_held_back text s ≡ false
    → HasDrawnIds s
    → let sent = send text s in
      ShowsText sent.messages (spoken events) (consume events sent)
      × ((consume events sent).is_streaming ≡ false)
unfolding send consume
send-consume text events s ready drawn = rw ready (
  shown_events events (record (with_user_message text s) { is_streaming = true; error = none }) refl
      (drawn_send s.next_id s.messages _ drawn refl),
  refl,
)

-- ===== src/Inputs.antt =====
-- What the two applications let the user do in a session: PromptInput, QuestionCard, PermissionCard,
-- ModeSelector and InterruptButton of clients/apps/web/src/components, and those of the same names
-- in clients/apps/mobile/src/components. `id` is the value of `uuid()`; a rejected promise is
-- swallowed, as the components do.
mod Tests
pub mod Prompts
use msclaude_connector.Prelude.{
  ℕ, Bool, true, false, ◌&&◌, not, List, [], ◌∷◌, Text, codes, is_empty, if◌then◌else◌,
}
use msclaude_connector.Value.{Value, Fields, str, bool, field, end, get}
use msclaude_connector.Client.{Client, World}
use msclaude_connector.Client.Commands.{
  send_prompt, answer_permission, answer_question, set_mode, interrupt,
}
use msclaude_connector.Pairing.Payload.{trim_start, trim_end}

-- `text.trim()`
unfoldable pub trim : Text → Text
unfolding trim_start trim_end
trim s = trim_end (trim_start s)

-- `send` of PromptInput: the text of the field, and the client.
unfoldable pub prompt_send : World → Text → Text → Client → Text × Client
unfolding trim
prompt_send w id text c =
    let value = trim text in
    if is_empty value then (text, c) else ([], (send_prompt w id value c).0)

-- A key of the browser's keyboard, with the shift key or without.
pub data Key : Type 0 where
  enter : Bool → Key
  other : Key

-- `onKeyDown` of the browser's PromptInput
unfoldable pub on_key_down : World → Text → Key → Text → Client → Text × Client
unfolding prompt_send
on_key_down w id (enter false) text c = prompt_send w id text c
on_key_down w id (enter true) text c = (text, c)
on_key_down w id other text c = (text, c)

-- The button that sends is on.
unfoldable pub can_send : Text → Bool
unfolding trim
can_send text = not (is_empty (trim text))

abbrev pub answer_body : Fields → Text → Fields
answer_body view text = field "questionId" (get "questionId" view) (field "text" (str text) end)

-- `submit` of the browser's QuestionCard, which its button starts where that is on.
unfoldable pub web_submit : World → Text → Fields → Text → Client → Text × Client
web_submit w id view answer c = ([], (answer_question w id (answer_body view answer) c).0)

unfoldable pub press_answer : World → Text → Fields → Text → Client → Text × Client
unfolding can_send web_submit
press_answer w id view answer c =
    if can_send answer then web_submit w id view answer c else (answer, c)

-- `submit` of the phone's QuestionCard
unfoldable pub mobile_submit : World → Text → Fields → Text → Client → Text × Client
unfolding trim
mobile_submit w id view answer c =
    if is_empty (trim answer)
    then (answer, c)
    else ([], (answer_question w id (answer_body view answer) c).0)

-- The buttons of PermissionCard.
pub data Choice : Type 0 where
  allow allow_always deny : Choice

abbrev pub allows : Choice → Bool × Bool
allows allow = (true, false)
allows allow_always = (true, true)
allows deny = (false, false)

-- `answer` of PermissionCard
unfoldable pub answer : World → Text → Fields → Choice → Client → Client
answer w id view choice c =
    let (allowed, always) = allows choice in
    (answer_permission w id
      (field "requestId" (get "requestId" view)
        (field "allow" (bool allowed) (field "allowAlways" (bool always) end)))
      c).0

-- `MODES`
abbrev pub modes : List Text
modes = codes "default" ∷ codes "acceptEdits" ∷ codes "bypassPermissions" ∷ codes "plan" ∷ []

-- The mode that ModeSelector shows, and what a choice of another does.
abbrev pub selected : Text → Text
selected mode = if is_empty mode then codes "default" else mode

unfoldable pub on_select : World → Text → Text → Client → Client
on_select w id mode c = (set_mode w id mode c).0

-- InterruptButton
unfoldable pub on_interrupt : World → Text → Client → Client
on_interrupt w id c = (interrupt w id c).0

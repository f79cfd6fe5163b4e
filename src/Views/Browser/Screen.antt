-- ===== src/Views/Browser/Screen.antt =====
-- clients/apps/web/src/components: SessionScreen with its cards, selector and buttons.
use msclaude_connector.Prelude.{Bool, true, ◌&&◌, List, [], ◌∷◌, Text, codes, if◌then◌else◌}
use msclaude_connector.Value.{Value, Fields, get}
use msclaude_connector.Client.{ClientState}
use msclaude_connector.Client.Commands.{is_live}
use msclaude_connector.Inputs.{modes, selected, can_send}
use msclaude_connector.Views.{Node, nothing, words, element, beside, keyed, value, keyed_by, button}
use msclaude_connector.Views.Browser.{stream_view, connection_badge, usage_bar}

-- `PlainText` of a field that no reader has checked
abbrev pub plain_value : Value → Node
plain_value v = element "span" (codes "plaintext") (value v)

-- `PermissionCard`
unfoldable pub permission_card : Fields → Node
permission_card view = element "div" (codes "card permission") (
    beside
      (element "div" (codes "meta")
        (beside (words (codes "permission · ")) (value (get "kind" view))))
      (beside (plain_value (get "summary" view)) (
        element "div" (codes "actions") (
          beside (button (codes "Allow") true)
            (beside (button (codes "Allow always") true) (button (codes "Deny") true))))))

-- `QuestionCard`, with the answer in its field
unfoldable pub question_card : Fields → Text → Node
unfolding can_send
question_card view answer = element "form" (codes "card question") (
    beside (element "div" (codes "meta") (words (codes "question"))) (
      beside (plain_value (get "text" view)) (
        element "div" (codes "composer") (
          beside (element "input" [] (words answer)) (button (codes "Answer") (can_send answer))))))

abbrev options : List Text → Node
options [] = nothing
options (m ∷ ms) = beside (keyed m (element "option" [] (words m))) (options ms)

-- `ModeSelector`: the mode that is selected is the class of the element.
unfoldable pub mode_selector : Text → Bool → Node
mode_selector mode is_on =
    element (if is_on then "select" else "select disabled") (selected mode) (options modes)

-- `PromptInput`, with the text in its field; the screen never disables it.
unfoldable pub prompt_input : Text → Node
unfolding can_send
prompt_input text =
    element "div" (codes "composer")
      (beside (element "textarea" [] (words text)) (button (codes "Send") (can_send text)))

abbrev permission_cards : List Fields → Node
unfolding permission_card
permission_cards [] = nothing
permission_cards (p ∷ ps) =
    beside (keyed_by (get "requestId" p) (permission_card p)) (permission_cards ps)

-- The cards of the questions, with the text in the field of each.
abbrev question_cards : (Fields → Text) → List Fields → Node
unfolding question_card
question_cards answers [] = nothing
question_cards answers (q ∷ qs) =
    beside (keyed_by (get "questionId" q) (question_card q (answers q))) (question_cards answers qs)

-- `SessionScreen`, with the texts in its fields
unfoldable pub session_screen : ClientState → (Fields → Text) → Text → Node
unfolding mode_selector connection_badge usage_bar stream_view permission_cards question_cards
    prompt_input
session_screen state answers text =
    let session = state.session in
    let live = is_live state.phase in
    element "div" (codes "app") (
      beside
        (element "div" (codes "header") (
          beside (element "strong" [] (words (codes "Harness"))) (
            beside (connection_badge state) (
              beside (element "span" (codes "hint") (words session.status)) (
                beside (usage_bar session.usage) (
                  beside (element "span" (codes "spacer") nothing) (
                    beside (mode_selector session.mode live)
                      (button (codes "Interrupt") (live && session.turn_active)))))))))
        (beside (stream_view session state.my_device_id) (
          beside (permission_cards session.pending_permissions)
            (beside (question_cards answers session.pending_questions) (prompt_input text)))))

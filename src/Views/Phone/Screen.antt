-- ===== src/Views/Phone/Screen.antt =====
-- clients/apps/mobile/src: SessionScreen with its cards and its field.
use msclaude_connector.Prelude.{true, List, [], ◌∷◌, Text, codes}
use msclaude_connector.Value.{Value, Fields, get}
use msclaude_connector.Client.{ClientState}
use msclaude_connector.Inputs.{can_send}
use msclaude_connector.Views.{Node, nothing, words, element, beside, value, keyed_by, button}
use msclaude_connector.Views.Phone.{stream_view, connection_badge}

-- `PlainText` of a field that no reader has checked
abbrev plain_value : Value → Node
plain_value v = element "Text" (codes "text") (value v)

-- `PermissionCard`
unfoldable pub permission_card : Fields → Node
permission_card view = element "View" (codes "card") (
    beside
      (element "Text" (codes "meta")
        (beside (words (codes "permission · ")) (value (get "kind" view))))
      (beside (plain_value (get "summary" view)) (
        element "View" (codes "actions") (
          beside (button (codes "Allow") true)
            (beside (button (codes "Always") true) (button (codes "Deny") true))))))

-- `QuestionCard`: its button is always on.
unfoldable pub question_card : Fields → Text → Node
question_card view answer = element "View" (codes "card") (
    beside (element "Text" (codes "meta") (words (codes "question"))) (
      beside (plain_value (get "text" view)) (
        element "View" (codes "row") (
          beside (element "TextInput" (codes "input") (words answer))
            (button (codes "Answer") true)))))

-- `PromptInput`
unfoldable pub prompt_input : Text → Node
unfolding can_send
prompt_input text = element "View" (codes "row") (
    beside (element "TextInput" (codes "input") (words text))
      (button (codes "Send") (can_send text)))

abbrev permission_cards : List Fields → Node
unfolding permission_card
permission_cards [] = nothing
permission_cards (p ∷ ps) =
    beside (keyed_by (get "requestId" p) (permission_card p)) (permission_cards ps)

abbrev question_cards : (Fields → Text) → List Fields → Node
unfolding question_card
question_cards answers [] = nothing
question_cards answers (q ∷ qs) =
    beside (keyed_by (get "questionId" q) (question_card q (answers q))) (question_cards answers qs)

-- `SessionScreen`, with the texts in its fields
unfoldable pub session_screen : ClientState → (Fields → Text) → Text → Node
unfolding connection_badge stream_view permission_cards question_cards prompt_input
session_screen state answers text =
    let session = state.session in
    element "View" (codes "container") (
      beside
        (element "View" (codes "header") (
          beside (element "Text" (codes "title") (words (codes "Harness"))) (
            beside (connection_badge state)
              (element "Text" (codes "hint") (words session.status)))))
        (beside (stream_view session state.my_device_id) (
          beside (permission_cards session.pending_permissions)
            (beside (question_cards answers session.pending_questions) (prompt_input text)))))

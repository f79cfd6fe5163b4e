-- ===== src/Views/Browser.antt =====
-- clients/apps/web/src/components: PlainText, ItemViews, StreamView, ConnectionBadge and UsageBar.
pub mod Screen
pub mod Pairing
pub mod App
use msclaude_connector.Prelude.{
  List, [], ◌∷◌, ◌++◌, Option, none, some, Text, codes, is_empty, if◌then◌else◌,
}
use msclaude_connector.Prelude.Decimal.{decimal}
use msclaude_connector.Value.{Value}
use msclaude_connector.Session.{
  Item, SessionState, ToolItem, PermissionItem, QuestionItem, Resolution, Answer, Level, Usage,
  prompt, assistant, tool, permission, question, notice,
}
use msclaude_connector.Session.Names.{display_name}
use msclaude_connector.Session.Ids.{id_of}
use msclaude_connector.Client.{ClientState}
use msclaude_connector.Views.{
  Node, nothing, words, element, beside, keyed, mine_of, resolution_words, answer_words,
  badge_label, label_of,
}

-- `PlainText`, without a class
unfoldable pub plain_text : Text → Node
plain_text text = element "span" (codes "plaintext") (words text)

abbrev meta : Text → Node
meta text = element "div" (codes "meta") (words text)

-- `{text ? <>…</> : null}`
abbrev pub labelled : Text → Option Text → Node
unfolding plain_text
labelled label none = nothing
labelled label (some text) =
    if is_empty text then nothing else beside (meta label) (plain_text text)

-- `ToolView`: an `open` element shows what it holds.
unfoldable pub tool_view : ToolItem → Node
unfolding labelled
tool_view i = element (if i.is_done then "details" else "details open") (codes "item tool") (
    beside
      (element "summary" [] (words (i.name ++ codes " " ++ (if i.is_done then [] else codes "…"))))
      (beside (labelled (codes "input") i.input) (labelled (codes "output") i.output)))

abbrev pub resolution_hint : Option Resolution → Node
resolution_hint none = nothing
resolution_hint (some r) = element "div" (codes "hint") (words (resolution_words r))

abbrev pub answer_hint : Option Answer → Node
answer_hint none = nothing
answer_hint (some a) = element "div" (codes "hint") (words (answer_words a))

abbrev resolved_class : {A : Type 0} → Option A → Text
resolved_class none = []
resolved_class (some a) = codes "resolved"

-- `PermissionView`
unfoldable pub permission_item : PermissionItem → Node
unfolding plain_text
permission_item i = element "div" (codes "item permission " ++ resolved_class i.resolved) (
    beside (meta (codes "permission · " ++ i.permission_kind))
      (beside (plain_text i.summary) (resolution_hint i.resolved)))

-- `QuestionView`
unfoldable pub question_item : QuestionItem → Node
unfolding plain_text
question_item i =
    element "div" (codes "item question " ++ resolved_class i.resolved)
      (beside (meta (codes "question")) (beside (plain_text i.text) (answer_hint i.resolved)))

abbrev level_name : Level → Text
level_name Level.info = codes "info"
level_name Level.error = codes "error"

-- `ItemView`
unfoldable pub item_view : SessionState → Value → Item → Node
unfolding plain_text tool_view permission_item question_item
item_view session my_device_id (prompt i) =
    element "div" (codes "item prompt")
      (beside (meta (display_name session i.by_device (mine_of my_device_id))) (plain_text i.text))
item_view session my_device_id (assistant i) =
    element "div" (codes "item assistant") (beside (meta (codes "assistant")) (plain_text i.text))
item_view session my_device_id (tool i) = tool_view i
item_view session my_device_id (permission i) = permission_item i
item_view session my_device_id (question i) = question_item i
item_view session my_device_id (notice i) =
    element "div" (codes "item notice " ++ level_name i.level) (plain_text i.text)

-- `session.items.map(…)`
unfoldable pub item_views : SessionState → Value → List Item → Node
unfolding item_view
item_views session my_device_id [] = nothing
item_views session my_device_id (i ∷ items) =
    beside (keyed (id_of i) (item_view session my_device_id i))
      (item_views session my_device_id items)

unfoldable pub stream_of : SessionState → Value → List Item → Node
unfolding item_views
stream_of session my_device_id [] =
    element "div" (codes "stream hint") (words (codes "No activity yet."))
stream_of session my_device_id (i ∷ items) =
    element "div" (codes "stream") (item_views session my_device_id (i ∷ items))

-- `StreamView`
unfoldable pub stream_view : SessionState → Value → Node
unfolding stream_of
stream_view session my_device_id = stream_of session my_device_id session.items

-- `ConnectionBadge`
unfoldable pub connection_badge : ClientState → Node
connection_badge state =
    element "span" (codes "badge " ++ label_of state.phase)
      (words (badge_label state.phase state.syncing state.retry_in_ms))

-- `UsageBar`
unfoldable pub usage_bar : Option Usage → Node
usage_bar none = nothing
usage_bar (some u) =
    element "span" (codes "usage")
      (words (codes "in " ++ decimal u.input_tokens ++ codes " · out " ++ decimal u.output_tokens))

-- ===== src/Views/Phone.antt =====
-- clients/apps/mobile/src/components: PlainText, StreamView and ConnectionBadge.
pub mod Screen
pub mod Pairing
pub mod App
use msclaude_connector.Prelude.{
  List, [], ◌∷◌, ◌++◌, Option, none, some, Text, codes, is_empty, if◌then◌else◌,
}
use msclaude_connector.Value.{Value}
use msclaude_connector.Session.{
  Item, SessionState, Resolution, Answer, prompt, assistant, tool, permission, question, notice,
}
use msclaude_connector.Session.Names.{display_name}
use msclaude_connector.Session.Ids.{id_of}
use msclaude_connector.Client.{ConnPhase, ClientState}
use msclaude_connector.Views.{
  Node, nothing, words, element, beside, keyed, mine_of, resolution_words, answer_words,
  badge_label,
}

-- `PlainText`
unfoldable pub plain_text : Text → Node
plain_text text = element "Text" (codes "text") (words text)

abbrev meta : Text → Node
meta text = element "Text" (codes "meta") (words text)

-- `{text ? <PlainText text={text} /> : null}`
abbrev pub text_if_given : Option Text → Node
unfolding plain_text
text_if_given none = nothing
text_if_given (some text) = if is_empty text then nothing else plain_text text

abbrev pub resolution_hint : Option Resolution → Node
resolution_hint none = nothing
resolution_hint (some r) = element "Text" (codes "hint") (words (resolution_words r))

abbrev pub answer_hint : Option Answer → Node
answer_hint none = nothing
answer_hint (some a) = element "Text" (codes "hint") (words (answer_words a))

abbrev item_style : {A : Type 0} → Option A → Text
item_style none = codes "item"
item_style (some a) = codes "item resolved"

-- `ItemView`
unfoldable pub item_view : SessionState → Value → Item → Node
unfolding plain_text text_if_given
item_view session my_device_id (prompt i) =
    element "View" (codes "item prompt")
      (beside (meta (display_name session i.by_device (mine_of my_device_id))) (plain_text i.text))
item_view session my_device_id (assistant i) =
    element "View" (codes "item") (beside (meta (codes "assistant")) (plain_text i.text))
item_view session my_device_id (tool i) = element "View" (codes "item") (
    beside (meta (codes "tool · " ++ i.name ++ codes " " ++ (if i.is_done then [] else codes "…")))
      (beside (text_if_given i.input) (text_if_given i.output)))
item_view session my_device_id (permission i) = element "View" (item_style i.resolved) (
    beside (meta (codes "permission · " ++ i.permission_kind))
      (beside (plain_text i.summary) (resolution_hint i.resolved)))
item_view session my_device_id (question i) =
    element "View" (item_style i.resolved)
      (beside (meta (codes "question")) (beside (plain_text i.text) (answer_hint i.resolved)))
item_view session my_device_id (notice i) = element "View" (codes "item") (plain_text i.text)

-- `session.items.map(…)`
unfoldable pub item_views : SessionState → Value → List Item → Node
unfolding item_view
item_views session my_device_id [] = nothing
item_views session my_device_id (i ∷ items) =
    beside (keyed (id_of i) (item_view session my_device_id i))
      (item_views session my_device_id items)

-- `StreamView`
unfoldable pub stream_view : SessionState → Value → Node
unfolding item_views
stream_view session my_device_id =
    element "ScrollView" (codes "stream") (item_views session my_device_id session.items)

-- `COLORS`, and the colour of any other phase.
abbrev pub color_of : ConnPhase → Text
color_of ConnPhase.live = codes "#34d399"
color_of ConnPhase.syncing = codes "#fbbf24"
color_of ConnPhase.reconnecting = codes "#fbbf24"
color_of ConnPhase.unauthorized = codes "#f87171"
color_of ConnPhase.error = codes "#f87171"
color_of _ = codes "#94a3b8"

-- `ConnectionBadge`
unfoldable pub connection_badge : ClientState → Node
connection_badge state =
    element "Text" (codes "badge " ++ color_of state.phase)
      (words (badge_label state.phase state.syncing state.retry_in_ms))

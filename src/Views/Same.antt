-- ===== src/Views/Same.antt =====
-- The two applications' views of a session, one against the other.
use msclaude_connector.Prelude.{◌≡◌, ◌≢◌, refl, List, [], ◌∷◌, Option, none, some, All}
use msclaude_connector.Value.{Value}
use msclaude_connector.Session.{
  Item, SessionState, Resolution, Answer, prompt, assistant, tool, permission, question, notice,
}
use msclaude_connector.Views.{content}
use msclaude_connector.Views.Browser
use msclaude_connector.Views.Phone

-- An item that is no tool call.
abbrev pub IsWorded : Item → Type 0
IsWorded (tool i) = ⊥
IsWorded _ = Unit

hint_content :
    (r : Option Resolution)
    → content (Browser.resolution_hint r) ≡ content (Phone.resolution_hint r)
unfolding content
hint_content none = refl
hint_content (some r) = refl

answer_content :
    (a : Option Answer) → content (Browser.answer_hint a) ≡ content (Phone.answer_hint a)
unfolding content
answer_content none = refl
answer_content (some a) = refl

item_view-content :
    (s : SessionState) (me : Value) (i : Item)
    → IsWorded i
    → content (Browser.item_view s me i) ≡ content (Phone.item_view s me i)
unfolding content Browser.item_view Phone.item_view
item_view-content s me (prompt i) h = refl
item_view-content s me (assistant i) h = refl
item_view-content s me (tool i) h = absurd h
item_view-content s me (permission i) h = rw (hint_content i.resolved) refl
item_view-content s me (question i) h = rw (answer_content i.resolved) refl
item_view-content s me (notice i) h = refl

item_views-content :
    (s : SessionState) (me : Value) (items : List Item)
    → All IsWorded items
    → content (Browser.item_views s me items) ≡ content (Phone.item_views s me items)
unfolding content Browser.item_views Phone.item_views
item_views-content s me [] h = refl
item_views-content s me (i ∷ items) h =
    rw (item_view-content s me i h.0, item_views-content s me items h.1) refl

stream_of-content :
    (s : SessionState) (me : Value) (items : List Item)
    → items ≢ []
    → All IsWorded items
    → content (Browser.stream_of s me items) ≡ content (Phone.item_views s me items)
unfolding content Browser.stream_of
stream_of-content s me [] given h = absurd (given refl)
stream_of-content s me (i ∷ items) given h = item_views-content s me (i ∷ items) h

-- The browser and the phone show the same text for a session that has an item and no tool call, for which
-- they have different words.
pub stream_view-content :
    (s : SessionState) (me : Value)
    → s.items ≢ []
    → All IsWorded s.items
    → content (Browser.stream_view s me) ≡ content (Phone.stream_view s me)
unfolding content Browser.stream_view Phone.stream_view
stream_view-content s me given h = stream_of-content s me s.items given h

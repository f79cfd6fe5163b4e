-- ===== src/Views/Keys.antt =====
-- The keys of the elements that the applications draw of a session, over any history of a client.
use mathlib.Core.List.{Nodup}
use msclaude_connector.Prelude.{ℕ, ◌≡◌, refl, sym, ap, ◌∙◌, List, [], ◌∷◌, ◌++◌, Option, map, Text}
use msclaude_connector.Value.{Value}
use msclaude_connector.Session.{Item, SessionState}
use msclaude_connector.Session.Ids.{id_of}
use msclaude_connector.Client.{World, AuthMode, HarnessIdentity}
use msclaude_connector.Client.Pair.{Event, pair_run}
use msclaude_connector.Client.Pair.Invariants.{unpaired, pairing_keeps_invariants}
use msclaude_connector.Views.{Node, nothing, words, element, beside, keyed, value, keyed_by, button}
use msclaude_connector.Views.Browser
use msclaude_connector.Views.Phone

-- The keys of the elements side by side.
unfoldable pub keys : Node → List Text
keys nothing = []
keys (words s) = []
keys (element tag class inner) = []
keys (beside a b) = keys a ++ keys b
keys (keyed key inner) = key ∷ []
keys (value v) = []
keys (keyed_by key inner) = []
keys (button name is_on) = []

-- Those of the elements in the outer one.
unfoldable pub inner_keys : Node → List Text
unfolding keys
inner_keys (element tag class inner) = keys inner
inner_keys _ = []

browser_keys :
    (s : SessionState) (me : Value) (items : List Item)
    → keys (Browser.item_views s me items) ≡ map id_of items
unfolding keys Browser.item_views
browser_keys s me [] = refl
browser_keys s me (i ∷ items) = ap (λ l. id_of i ∷ l) (browser_keys s me items)

phone_keys :
    (s : SessionState) (me : Value) (items : List Item)
    → keys (Phone.item_views s me items) ≡ map id_of items
unfolding keys Phone.item_views
phone_keys s me [] = refl
phone_keys s me (i ∷ items) = ap (λ l. id_of i ∷ l) (phone_keys s me items)

stream_keys :
    (s : SessionState) (me : Value) (items : List Item)
    → inner_keys (Browser.stream_of s me items) ≡ map id_of items
unfolding inner_keys Browser.stream_of
stream_keys s me [] = refl
stream_keys s me (i ∷ items) = browser_keys s me (i ∷ items)

-- Whatever happens to a new client, the browser and the phone draw its session with the same keys, and no
-- two elements have one key.
pub stream_view-keys :
    (url : Text) (mode : AuthMode) (identity : Option HarnessIdentity) (max : Option ℕ)
    (h : List (World × Event)) (me : Value)
    → let s = (pair_run (unpaired url mode identity max) h).client.session in
      (inner_keys (Browser.stream_view s me) ≡ inner_keys (Phone.stream_view s me))
      × Nodup (inner_keys (Phone.stream_view s me))
unfolding inner_keys Browser.stream_view Phone.stream_view
stream_view-keys url mode identity max h me =
    let c = (pair_run (unpaired url mode identity max) h).client in
    let phone = phone_keys c.session me c.session.items in
    (
      stream_keys c.session me c.session.items ∙ sym phone,
      rw phone (pairing_keeps_invariants url mode identity max h).1.ids.unique,
    )

-- ===== src/Views.antt =====
-- What the applications draw of a session: ItemViews, StreamView, ConnectionBadge and UsageBar of
-- clients/apps/web/src/components, and StreamView and ConnectionBadge of clients/apps/mobile/src/components.
-- A node is what a component returns; layout that carries no text is left out.
mod Tests
pub mod Browser
pub mod Phone
pub mod Same
pub mod Screens
pub mod Keys
use msclaude_connector.Prelude.{
  ℕ, ◌+◌, ◌/◌, String, Bool, true, false, [], ◌∷◌, ◌++◌, Option, none, some, Text, codes, is_empty,
  if◌then◌else◌,
}
use msclaude_connector.Prelude.Decimal.{decimal}
use msclaude_connector.Value.{Value, Items, str, num, arr, nil, cons}
use msclaude_connector.Value.Template.{text_of_number}
use msclaude_connector.Session.{Resolution, Answer}
use msclaude_connector.Client.{ConnPhase, Progress, ClientState}

pub data Node : Type 0 where
  -- `null`
  nothing : Node
  words : Text → Node
  -- an element, by its tag and its class or style
  element : String → Text → Node → Node
  beside : Node → Node → Node
  keyed : Text → Node → Node
  -- a field that no reader has checked, as a text or as a key
  value : Value → Node
  keyed_by : Value → Node → Node
  -- a button, by what it is called and whether it is on
  button : Text → Bool → Node

-- The text of a child: null, undefined and Booleans show nothing, an array its elements. An object is no
-- child; the component throws.
unfoldable mutual
  pub child_text : Value → Text
  child_text (str s) = s
  child_text (num n) = text_of_number n
  child_text (arr vs) = children_text vs
  child_text _ = []

  pub children_text : Items → Text
  children_text nil = []
  children_text (cons v vs) = child_text v ++ children_text vs

-- The text of a node, without its elements.
unfoldable pub content : Node → Text
unfolding child_text children_text
content nothing = []
content (words s) = s
content (element tag class inner) = content inner
content (beside a b) = content a ++ content b
content (keyed key inner) = content inner
content (value v) = child_text v
content (keyed_by key inner) = content inner
content (button name is_on) = name

-- `a || b`
abbrev pub or_text : Text → Text → Text
or_text a b = if is_empty a then b else a

-- `myDeviceId ?? undefined`, for a comparison with a text: no other value is equal to one.
abbrev pub mine_of : Value → Option Text
mine_of (str s) = some s
mine_of _ = none

-- `{allow ? 'Allowed' : 'Denied'} by {byName || byDevice}`
unfoldable pub resolution_words : Resolution → Text
resolution_words r =
    (if r.allow then codes "Allowed" else codes "Denied")
    ++ codes " by "
    ++ or_text r.by_name r.by_device

-- `Answered {text} — by {byName || byDevice}`
unfoldable pub answer_words : Answer → Text
answer_words a = codes "Answered " ++ a.text ++ codes " — by " ++ or_text a.by_name a.by_device

-- `LABELS`
abbrev pub label_of : ConnPhase → Text
label_of ConnPhase.idle = codes "idle"
label_of ConnPhase.connecting = codes "connecting"
label_of ConnPhase.pairing = codes "pairing"
label_of ConnPhase.syncing = codes "syncing"
label_of ConnPhase.live = codes "live"
label_of ConnPhase.reconnecting = codes "reconnecting"
label_of ConnPhase.unauthorized = codes "unauthorized"
label_of ConnPhase.error = codes "error"

-- The text of the badge of both applications; a delay of whole seconds, rounded up.
unfoldable pub badge_label : ConnPhase → Option Progress → Option ℕ → Text
badge_label ConnPhase.syncing (some p) retry_in_ms =
    codes "syncing " ++ decimal p.applied ++ codes "/" ++ decimal p.total
badge_label ConnPhase.reconnecting syncing (some ms) =
    codes "reconnecting in " ++ decimal ((ms + 999) / 1000) ++ codes "s"
badge_label phase syncing retry_in_ms = label_of phase

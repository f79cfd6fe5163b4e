-- ===== src/Web.antt =====
-- clients/apps/web/src: the web application's client (store.ts, identity.ts) and which screen it shows
-- (App.tsx). `localStorage` and `location` are the browser's.
mod Tests
pub mod Pairing
pub mod Form
use msclaude_connector.Prelude.{
  Bool, true, false, ◌&&◌, ◌||◌, not, ◌++◌, Option, none, some, Text, codes, text_eq, or_else,
  if◌then◌else◌,
}
use msclaude_connector.Value.{Value, null, undefined, same_value}
use msclaude_connector.Client.{Client, World, AuthMode, ConnPhase, ClientState, HarnessIdentity}
use msclaude_connector.Client.Commands.{is_falsy}
use msclaude_connector.Client.Notify.{new_client}
use msclaude_connector.Client.Reconnect.{connect}
use msclaude_connector.Mobile.Storage.{KeyStore, Codec, load_identity}

-- `location`
pub record Location : Type 0 where
  pub protocol : Text
  pub host : Text

-- `wsUrl`
unfoldable pub ws_url : Location → Text
ws_url location =
    (if text_eq location.protocol (codes "https:") then codes "wss" else codes "ws")
    ++ codes "://"
    ++ location.host
    ++ codes "/ws"

-- `loadIdentity`, which reads `localStorage` as the mobile application reads its secure store.
unfoldable pub load_stored : {S : Type 0} → KeyStore S → Codec → S → Option HarnessIdentity
unfolding load_identity
load_stored = load_identity

-- `getClient`; the client that is there already, if any, is the first argument.
unfoldable pub get_client : Option Client → Location → Option HarnessIdentity → Client
unfolding ws_url
get_client none location stored = new_client (ws_url location) AuthMode.hello stored none
get_client (some c) location stored = c

-- `needsPairing`
abbrev pub is_unauthorized : ConnPhase → Bool
is_unauthorized ConnPhase.unauthorized = true
is_unauthorized _ = false

abbrev pub needs_pairing : ClientState → Bool
needs_pairing state = same_value state.my_device_id null || is_unauthorized state.phase

abbrev pub is_idle : ConnPhase → Bool
is_idle ConnPhase.idle = true
is_idle _ = false

-- The effect of `App`, when it is mounted and when the device changes.
unfoldable pub on_mount : World → Client → Client
on_mount w c =
    if not (is_falsy c.current.my_device_id) && is_idle c.current.phase then connect w none c else c

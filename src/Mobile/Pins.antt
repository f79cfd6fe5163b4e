-- ===== src/Mobile/Pins.antt =====
-- mobileClient.ts: `pinFor`, and `setPinnedHosts` of tls.ts.
-- The URL parser, the native module and `Number` are the platform's.
use msclaude_connector.Prelude.{List, [], ◌∷◌, Option, none, some, Text, is_empty, if◌then◌else◌}
use msclaude_connector.Value.{Value, Number}

-- `PinnedHost`
pub record PinnedHost : Type 0 where
  pub host : Text
  pub port : Number
  pub spki : Value

-- `hostname` and `port` of a parsed URL, or `none` where `new URL` throws.
pub record Address : Type 0 where
  pub hostname : Text
  pub port : Text

module _ (address_of : Text → Option Address) (number_of : Text → Number) where
  -- `Number(parsed.port || 7432)`
  abbrev pub port_of : Text → Number
  port_of port = if is_empty port then Number.finite 7432 else number_of port

  abbrev pub host_for : Address → Value → PinnedHost
  host_for address spki = record {
    host = address.hostname;
    port = port_of address.port;
    spki = spki;
  }

  -- `pinFor`: the lists that `setPinnedHosts` is called with. An error is swallowed.
  unfoldable pub pin_for : Text → Value → List (List PinnedHost)
  pin_for url spki = elim (address_of url) [
    | none ↦ []
    | some address ↦ (host_for address spki ∷ []) ∷ []
  ]

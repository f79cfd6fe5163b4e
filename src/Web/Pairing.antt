-- ===== src/Web/Pairing.antt =====
-- clients/apps/web/src/components/PairScreen.tsx: the form that pairs the browser with a host. The
-- parsers of JSON and URLs are the platform's.
pub mod Address
pub mod Twice
use msclaude_connector.Prelude.{
  ℕ, Bool, true, false, List, [], ◌∷◌, ◌++◌, ◌⊎◌, inl, inr, Option, none, some, Text, codes,
  text_eq, is_empty, take, if◌then◌else◌, or_else,
}
use msclaude_connector.Prelude.Decimal.{decimal}
use msclaude_connector.Value.{Value}
use msclaude_connector.Pairing.{PairingInfo, pairing_code, ws_scheme}
use msclaude_connector.Pairing.Payload.{Url, Parsed, Failure, ok, failed, parse_pairing_payload}
use msclaude_connector.Inputs.{trim}
use msclaude_connector.Client.{Client, World, HarnessIdentity}
use msclaude_connector.Client.Reconnect.{connect, close, reset, set_identity}
use msclaude_connector.Client.Pair.{Pairing, Reason, Attempt, pair}

-- The error that the form shows: that of the payload, of `pair` or of the store.
pub data Problem : Type 0 where
  bad_payload : Failure → Problem
  not_paired : Reason → Problem
  not_saved : Text → Problem

-- The state of the form.
pub record Form : Type 0 where
  pub url : Text
  pub token : Text
  pub error : Option Problem
  pub busy : Bool

-- `derivedCode`
unfoldable pub derived_code : Form → Text
unfolding trim
derived_code f = let token = trim f.token in if is_empty token then [] else pairing_code token

-- What `pair` is called with.
pub record Request : Type 0 where
  pub token : Text
  pub url : Text
  pub spki : Text

-- The URL of the first address, where there is one.
unfoldable pub url_for_info : Text → PairingInfo → Text
unfolding ws_scheme
url_for_info url info = elim info.addrs [
  | [] ↦ url
  | addr ∷ addrs ↦
      ws_scheme info ++ codes "://" ++ addr ++ codes ":" ++ decimal info.port ++ codes "/ws"
]

abbrev pub request_of : Text → Parsed → Problem ⊎ Request
unfolding url_for_info
request_of url (ok info) =
    inr (record { token = info.token; url = url_for_info url info; spki = info.spki })
request_of url (failed f) = inl (bad_payload f)

module _ (json_of : Text → Option Value) (url_of : Text → Option Url) where
  -- The first part of `submit`, up to the call of `pair`.
  unfoldable pub request_for : Form → Problem ⊎ Request
  unfolding trim request_of
  request_for f =
      let token = trim f.token in
      if text_eq (take 1 token) (codes "{")
      then request_of f.url (parse_pairing_payload json_of url_of token)
      else inr (record { token = token; url = f.url; spki = [] })

  -- The screen, with the client.
  pub record Screen : Type 0 where
    pub form : Form
    pub pairing : Pairing

  abbrev pub spki_of : Text → Option Text
  spki_of spki = if is_empty spki then none else some spki

  -- `submit`, up to the `await`.
  unfoldable pub submit : World → Screen → Screen
  unfolding request_for
  submit w s =
      let started = record s.form { busy = true; error = none } in
      elim (request_for started) [
        | inl e ↦ record s { form = record started { busy = false; error = some e } }
        | inr r ↦ record {
          form = started;
          pairing = pair w r.token (some r.url) (spki_of r.spki) s.pairing;
        }
      ]

-- `submit` goes on once the promise of `pair` is resolved: `save_failure` is what `saveIdentity` throws.
unfoldable pub after_pair : World → Option Text → Form → Client → Form × Client
after_pair w save_failure f c = elim save_failure [
  | none ↦ (record f { busy = false }, connect w none c)
  | some message ↦ (record f { busy = false; error = some (not_saved message) }, c)
]

-- `submit`, where the promise is rejected.
unfoldable pub after_failure : Reason → Form → Form
after_failure reason f = record f { busy = false; error = some (not_paired reason) }

-- `forget`, once the stored identity is cleared.
unfoldable pub forget : Client → Client
forget c = set_identity none (reset (close c))

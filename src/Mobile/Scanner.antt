-- ===== src/Mobile/Scanner.antt =====
-- clients/apps/mobile/src/screens/PairScreen.tsx: the screen that pairs the phone with a host, by a code that
-- is scanned or a payload that is pasted. The parsers of JSON and URLs are the platform's.
use msclaude_connector.Prelude.{
  Bool, true, false, ◌||◌, ◌&&◌, not, [], Option, none, some, Text, codes, text_eq, is_empty, take,
  if◌then◌else◌,
}
use msclaude_connector.Value.{Value}
use msclaude_connector.Inputs.{trim}
use msclaude_connector.Pairing.{PairingInfo, pairing_code}
use msclaude_connector.Pairing.Payload.{Url, Parsed, ok, failed, parse_pairing_payload}
use msclaude_connector.Pairing.Payload as Payload
use msclaude_connector.Mobile.Candidates as Candidates
use msclaude_connector.Mobile.Candidates.{Answer, found, threw}

-- The error that is shown.
pub data Problem : Type 0 where
  bad_payload : Payload.Failure → Problem
  not_paired : Option Candidates.Failure → Problem

pub record Scanner : Type 0 where
  pub scanned : Bool
  pub manual : Text
  pub error : Option Problem
  pub busy : Bool

-- `handle`, where it throws.
unfoldable pub fail : Problem → Scanner → Scanner
fail e s = record s { error = some e; scanned = false; busy = false }

abbrev pub start_of : Parsed → Scanner → Scanner × Option PairingInfo
unfolding fail
start_of (ok info) s = (s, some info)
start_of (failed e) s = (fail (bad_payload e) s, none)

module _ (json_of : Text → Option Value) (url_of : Text → Option Url) where
  -- `handle`, up to the `await`: the payload that `pairWithInfo` is called with, if it is.
  unfoldable pub handle : Text → Scanner → Scanner × Option PairingInfo
  unfolding start_of trim
  handle raw s =
      if is_empty (trim raw)
      then (s, none)
      else start_of (parse_pairing_payload json_of url_of raw)
          (record s { busy = true; error = none })

  -- `onScan`
  unfoldable pub on_scan : Text → Scanner → Scanner × Option PairingInfo
  unfolding handle
  on_scan text s =
      if s.scanned || s.busy then (s, none) else handle text (record s { scanned = true })

-- `handle`, from what `pairWithInfo` ends with on.
unfoldable pub after_pairing : Answer → Scanner → Scanner
unfolding fail
after_pairing (found identity) s = record s { busy = false }
after_pairing (threw e) s = fail (not_paired e) s

-- `manualCode`
unfoldable pub manual_code : Scanner → Text
unfolding trim
manual_code s =
    let manual = trim s.manual in
    if not (is_empty manual) && not (text_eq (take 1 manual) (codes "{"))
    then pairing_code manual
    else []

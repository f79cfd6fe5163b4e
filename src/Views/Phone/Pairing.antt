-- ===== src/Views/Phone/Pairing.antt =====
-- clients/apps/mobile/src/screens/PairScreen.tsx: what the screen shows. `message` gives the message of an
-- error, `granted` is the permission of the camera.
use msclaude_connector.Prelude.{
  Bool, true, ◌||◌, not, Option, none, some, Text, codes, is_empty, if◌then◌else◌,
}
use msclaude_connector.Client.{ClientState}
use msclaude_connector.Client.Commands.{is_falsy}
use msclaude_connector.Mobile.Scanner.{Scanner, Problem, manual_code}
use msclaude_connector.Web.{is_unauthorized}
use msclaude_connector.Views.{Node, nothing, words, element, beside, button}

-- The camera reads codes where it is granted, and nothing was scanned and nothing runs.
abbrev pub camera : Bool → Scanner → Node
camera granted s =
    if granted
    then element (if s.scanned || s.busy then "CameraView" else "CameraView scanning")
        (codes "camera") nothing
    else element "Text" (codes "hint")
        (words (codes "Camera permission is required to scan the pairing QR."))

abbrev text_if_any : Text → Text → Node
text_if_any style s = if is_empty s then nothing else element "Text" style (words s)

abbrev error_text : (Problem → Text) → Option Problem → Node
error_text message none = nothing
error_text message (some e) = text_if_any (codes "error") (message e)

abbrev pub greeting : ClientState → Node
greeting state =
    if is_unauthorized state.phase
    then element "Text" (codes "error")
        (words (codes "This device is no longer authorized. Scan the host QR again to re-pair."))
    else element "Text" (codes "hint")
        (words (codes "Scan the host's pairing QR, then confirm the 4-character code."))

-- `PairScreen`
unfoldable pub pair_screen : (Problem → Text) → Bool → ClientState → Scanner → Node
unfolding manual_code
pair_screen message granted state s = element "View" (codes "container") (
    beside (element "Text" (codes "title") (words (codes "Pair with host"))) (
      beside (greeting state) (
        beside (element "View" (codes "camera") (camera granted s)) (
          beside
            (element "Text" (codes "hint") (words (codes "Or paste the pairing JSON / token:")))
            (beside (element "TextInput" (codes "input") (words s.manual)) (
              beside (text_if_any (codes "code") (manual_code s)) (
                beside
                  (button (if s.busy then codes "Pairing…" else codes "Pair")
                    (not (s.busy || is_empty s.manual)))
                  (beside (error_text message s.error) (
                    if is_falsy state.my_device_id
                    then nothing
                    else button (codes "Forget this device") true)))))))))
